-- ===== src/Privfs/Run/Granted.antt =====
-- Which commands the helper runs, and what its exit code says.
use maid_cafe.Base.{
  All, zero, suc, ◌≡◌, refl, ap, ◌∙◌, ◌≢◌, ◌↔◌, true, List, [], ◌∷◌, arith, ok, Bool-cases, ◌==◌,
  inr, inl, Result-cases, ==_iff, some, Option-cases,
}
use maid_cafe.Base.Int.{pos, negsuc}
use maid_cafe.Base.Text.{Bytes}
use maid_cafe.Privfs.Units.{UnitGrant, systemd_argv}
use maid_cafe.Privfs.Grants.{GrantSet, load_set, lookup_unit}
use maid_cafe.Privfs.Packages.{PackageGrant, package_argv, package_env}
use maid_cafe.Privfs.Run.{
  resolve, resolve_all, manager_paths, run_packages, Command, Ended, succeeded, exited, not_run,
  run_external, external_exit_code, exit_ok, with_grants, run_systemd, Machine, Action, Outcome,
}

external_exit_code_nonzero :
    (e : Ended) → e ≢ succeeded → e ≢ exited (pos 0) → external_exit_code e ≢ exit_ok
unfolding external_exit_code
external_exit_code_nonzero succeeded h z x = h refl
external_exit_code_nonzero not_run h z x = cc
external_exit_code_nonzero (exited (negsuc n)) h z x = cc
external_exit_code_nonzero (exited (pos zero)) h z x = z refl
external_exit_code_nonzero (exited (pos (suc n))) h z x = absurd (ground arith)

-- the exit code is 0 exactly if all the commands ran, in order, and succeeded, and the one audit entry
-- says so
pub IsExact : (Command → Ended) → Bytes → List Command → Type 0
IsExact execute verb commands = ((run_external execute verb commands).code ≡ exit_ok) ↔ (
    ((run_external execute verb commands).ran ≡ commands)
    × All (λ c. execute c ≡ succeeded) commands
    × ((run_external execute verb commands).entries ≡ record { verb = verb; fine = true } ∷ []))

IsExact-next :
    (execute : Command → Ended) (verb : Bytes) (c : Command) (cs : List Command)
    → (execute c ≢ exited (pos 0))
    → IsExact execute verb cs
    → (e : Ended) → execute c ≡ e
    → IsExact execute verb (c ∷ cs)
unfolding IsExact run_external
IsExact-next execute verb c cs honest rest succeeded h =
    rw (h, run_external)
      (
        λ zero_code.
            let (ran, all, entry) = rest.0 zero_code in
            (ap (λ ran. c ∷ ran) ran, (refl, all), entry),
        λ (ran, (own, all), entry). rest.1 (cc, all, entry),
      )
IsExact-next execute verb c cs honest rest not_run h =
    rw (h, run_external) (λ bad. cc, λ (ran, (own, all), entry). cc)
IsExact-next execute verb c cs honest rest (exited n) h =
    rw (h, run_external)
      (
        λ bad. absurd (external_exit_code_nonzero (exited n) (λ x. cc) (λ x. honest (h ∙ x)) bad),
        λ (ran, (own, all), entry). cc,
      )

-- Where no command is said to fail with the code 0, `runExternal` returns 0 exactly if it has run all
-- the commands, in order, each succeeded, and its one audit entry says so.
pub run_external-IsExact :
    (execute : Command → Ended) (verb : Bytes) (commands : List Command)
    → ((c : Command) → execute c ≢ exited (pos 0))
    → IsExact execute verb commands
run_external-IsExact execute verb [] honest =
    unfold IsExact run_external in (λ _. (refl, tt, refl), λ _. refl)
run_external-IsExact execute verb (c ∷ cs) honest =
    IsExact-next execute verb c cs (honest c) (run_external-IsExact execute verb cs honest)
      (execute c) refl

pub run_external-All :
    (P : Command → Type 0) (execute : Command → Ended) (verb : Bytes) (commands : List Command)
    → All P commands
    → All P (run_external execute verb commands).ran
unfolding run_external
run_external-All P execute verb [] h = tt
run_external-All P execute verb (c ∷ cs) (h, hs) =
    go (execute c) refl (run_external-All P execute verb cs hs)
  where
    go :
        (e : Ended)
        → execute c ≡ e
        → All P (run_external execute verb cs).ran
        → All P (run_external execute verb (c ∷ cs)).ran
    go succeeded e rest = rw (e, run_external) (h, rest)
    go not_run e rest = rw (e, run_external) (h, tt)
    go (exited n) e rest = rw (e, run_external) (h, tt)

pub with_grants-All :
    (P : Command → Type 0) (m : Machine) (action : Action) (continue : GrantSet → Outcome)
    → ((set : GrantSet)
        → m.euid ≡ 0
        → load_set m.host action.config_path true ≡ ok set
        → All P (continue set).ran)
    → All P (with_grants m action continue).ran
unfolding with_grants
with_grants-All P m action continue h = elim (Bool-cases (m.euid == 0)) [
  | inr other ↦ rw (other, with_grants) tt
  | inl root ↦ elim (Result-cases (load_set m.host action.config_path true)) [
    | inr (e, bad) ↦ rw (root, bad, with_grants) tt
    | inl (set, loaded) ↦ rw (root, loaded, with_grants) (h set ((==_iff m.euid 0).0 root) loaded)
  ]
]

-- what allows a command of `runSystemd`: root runs the helper, and a grant of the guarded file makes
-- the command of the verb for the unit that was asked for
pub record MadeByUnit (m : Machine) (action : Action) (c : Command) : Type 0 where
  pub root : m.euid ≡ 0
  pub set : GrantSet
  pub loaded : load_set m.host action.config_path true ≡ ok set
  pub grant : UnitGrant
  pub granted : lookup_unit set action.unit ≡ ok grant
  pub made : systemd_argv m.stat grant action.verb ≡ ok c.argv

-- Every command that `runSystemd` starts is started by root, and is the command that a grant of the
-- guarded file makes of the verb for the unit that was asked for.
pub run_systemd-MadeByUnit :
    (m : Machine) (action : Action) → All (MadeByUnit m action) (run_systemd m action).ran
unfolding run_systemd
run_systemd-MadeByUnit m action =
    with_grants-All (MadeByUnit m action) m action _ λ set root loaded.
      elim (Result-cases (lookup_unit set action.unit)) [
        | inr (e, bad) ↦ rw bad tt
        | inl (g, granted) ↦ elim (Result-cases (systemd_argv m.stat g action.verb)) [
          | inr (e, bad) ↦ rw (granted, bad) tt
          | inl (argv, made) ↦
              rw (granted, made)
                (run_external-All (MadeByUnit m action) m.execute action.verb
                  (record { argv = argv; extra_env = [] } ∷ [])
                  (
                    record {
                      root = root;
                      set = set;
                      loaded = loaded;
                      grant = g;
                      granted = granted;
                      made = made;
                    },
                    tt,
                  ))
        ]
      ]

-- what allows a command of `runPackages`: the grant of the guarded file makes it of the verb and the
-- name, with the binary under one of its fixed paths
pub record MadeByManager (m : Machine) (action : Action) (c : Command) : Type 0 where
  pub root : m.euid ≡ 0
  pub set : GrantSet
  pub loaded : load_set m.host action.config_path true ≡ ok set
  pub grant : PackageGrant
  pub granted : set.packages ≡ some grant
  pub argv : List Bytes
  pub made : package_argv grant action.verb action.package_name ≡ ok argv
  pub found : resolve m manager_paths argv ≡ ok c.argv

resolve_all-one :
    (m : Machine) (paths : Bytes → List Bytes) (env argv : List Bytes) (commands : List Command)
    → resolve_all m paths env (argv ∷ []) ≡ ok commands
    → (c : Command) × (commands ≡ c ∷ []) × (resolve m paths argv ≡ ok c.argv)
unfolding resolve_all
resolve_all-one m paths env argv commands h = elim (Result-cases (resolve m paths argv)) [
  | inr (e, bad) ↦ cc (rw (bad, resolve_all) at h)
  | inl (found, r) ↦
      let h' = rw (r, resolve_all) at h in (record { argv = found; extra_env = env }, cc, r)
]

-- Every command that `runPackages` starts is started by root, and is the command that the grant of
-- the guarded file makes of the verb and the name, with the binary under one of its fixed paths.
pub run_packages-MadeByManager :
    (m : Machine) (action : Action) → All (MadeByManager m action) (run_packages m action).ran
unfolding run_packages
run_packages-MadeByManager m action =
    with_grants-All (MadeByManager m action) m action _ λ set root loaded.
      elim (Option-cases set.packages) [
        | inl absent ↦ rw absent tt
        | inr (g, granted) ↦ elim (Result-cases (package_argv g action.verb action.package_name)) [
          | inr (e, bad) ↦ rw (granted, bad) tt
          | inl (argv, made) ↦
              elim (Result-cases
                (resolve_all m manager_paths (package_env g.manager) (argv ∷ []))) [
                  | inr (e, bad) ↦ rw (granted, made, bad) tt
                  | inl (commands, all) ↦
                      let (c, one, found) =
                        resolve_all-one m manager_paths (package_env g.manager) argv commands all in
                      rw (granted, made, all, one)
                        (run_external-All (MadeByManager m action) m.execute action.verb (c ∷ []) (
                          record {
                            root = root;
                            set = set;
                            loaded = loaded;
                            grant = g;
                            granted = granted;
                            argv = argv;
                            made = made;
                            found = found;
                          },
                          tt,
                        ))
                ]
        ]
      ]
