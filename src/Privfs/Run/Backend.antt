-- ===== src/Privfs/Run/Backend.antt =====
-- Which commands the helper runs for the firewall.
use maid_cafe.Base.{
  All, ok, Option-cases, Result-cases, ◌≡◌, refl, ◌⊎◌, inl, inr, true, some, List, [], ◌∷◌,
}
use maid_cafe.Base.Text.{Bytes}
use maid_cafe.Privfs.Cli.{Action}
use maid_cafe.Privfs.Firewall.{FirewallGrant, FirewallRule, firewall_commands}
use maid_cafe.Privfs.Grants.{GrantSet, load_set}
use maid_cafe.Privfs.Run.{
  Machine, Command, run_firewall, rule_of, resolve, resolve_all, firewall_paths,
}
use maid_cafe.Privfs.Run.Granted.{run_external-All, with_grants-All}

-- an item is in a list
abbrev pub Among : {A : Type 0} → A → List A → Type 0
Among x [] = ⊥
Among x (y ∷ ys) = (x ≡ y) ⊎ Among x ys

-- what allows a command of `runFirewall`: a checked rule of the action, and the grant of the guarded
-- file, which makes it one of the commands of the verb, with the binary under one of its fixed paths
pub record MadeByBackend (m : Machine) (action : Action) (c : Command) : Type 0 where
  pub root : m.euid ≡ 0
  pub set : GrantSet
  pub loaded : load_set m.host action.config_path true ≡ ok set
  pub grant : FirewallGrant
  pub granted : set.firewall ≡ some grant
  pub rule : FirewallRule
  pub checked : rule_of action ≡ ok rule
  pub argvs : List (List Bytes)
  pub made : firewall_commands grant action.verb rule ≡ ok argvs
  pub argv : List Bytes
  pub one_of : Among argv argvs
  pub found : resolve m firewall_paths argv ≡ ok c.argv

resolve_all-All :
    (P : Command → Type 0) (m : Machine) (paths : Bytes → List Bytes) (env : List Bytes)
    (argvs : List (List Bytes)) (commands : List Command)
    → ((argv : List Bytes) (c : Command)
        → Among argv argvs
        → resolve m paths argv ≡ ok c.argv
        → P c)
    → resolve_all m paths env argvs ≡ ok commands
    → All P commands
unfolding resolve_all
resolve_all-All P m paths env [] commands make h = let e : commands ≡ [] = cc in rw e tt
resolve_all-All P m paths env (argv ∷ argvs) commands make h =
    elim (Result-cases (resolve m paths argv)) [
      | inr (e, bad) ↦ cc (rw (bad, resolve_all) at h)
      | inl (path, r) ↦ elim (Result-cases (resolve_all m paths env argvs)) [
        | inr (e, bad) ↦ cc (rw (r, bad, resolve_all) at h)
        | inl (rest, rs) ↦
            let c : Command = record { argv = path; extra_env = env } in
            let h' = rw (r, rs, resolve_all) at h in
            let e : commands ≡ c ∷ rest = cc in
            rw e (
              make argv c (inl refl) r,
              resolve_all-All P m paths env argvs rest (λ other d among. make other d (inr among))
                  rs,
            )
      ]
    ]

-- Every command that `runFirewall` starts is started by root, for a rule that `ParseFirewallRule` has
-- checked if the verb takes one, and is one of the commands that the grant of the guarded file makes
-- of the verb and the rule, with the binary under one of its fixed paths.
pub run_firewall-MadeByBackend :
    (m : Machine) (action : Action) → All (MadeByBackend m action) (run_firewall m action).ran
unfolding run_firewall
run_firewall-MadeByBackend m action =
    with_grants-All (MadeByBackend m action) m action _ λ set root loaded.
      elim (Option-cases set.firewall) [
        | inl absent ↦ rw absent tt
        | inr (g, granted) ↦ elim (Result-cases (rule_of action)) [
          | inr (e, bad) ↦ rw (granted, bad) tt
          | inl (rule, checked) ↦ elim (Result-cases (firewall_commands g action.verb rule)) [
            | inr (e, bad) ↦ rw (granted, checked, bad) tt
            | inl (argvs, made) ↦ elim (Result-cases (resolve_all m firewall_paths [] argvs)) [
              | inr (e, bad) ↦ rw (granted, checked, made, bad) tt
              | inl (commands, all) ↦
                  rw (granted, checked, made, all)
                    (run_external-All (MadeByBackend m action) m.execute action.verb commands (
                      resolve_all-All (MadeByBackend m action) m firewall_paths [] argvs commands
                        (λ argv c among found. record {
                          root = root;
                          set = set;
                          loaded = loaded;
                          grant = g;
                          granted = granted;
                          rule = rule;
                          checked = checked;
                          argvs = argvs;
                          made = made;
                          argv = argv;
                          one_of = among;
                          found = found;
                        })
                        all))
            ]
          ]
        ]
      ]
