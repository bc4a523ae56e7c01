-- ===== src/Daemon/Files/Resolve.antt =====
-- The targets that `resolve` returns: they lie in a root, in the longest one, and below it.
pub mod Longest
pub mod Below
use maid_cafe.Base.{
  ◌==◌, if◌then◌else◌, Bool-cases, length, All, Among, ℕ, ◌≤◌, ◌≡◌, refl, ap, ◌≢◌, ◌⊎◌, inl, inr,
  true, false, none, some, List, [], ◌∷◌, ◌++◌, arith, &&_split, ==_iff, sym, append-nil, ◌∙◌,
  append_assoc, ok, Option-cases, All-Among,
}
use mathlib.Core.List.{reverse}
use maid_cafe.Base.Filepath.{is_abs, clean, render, clean_step, clean_elems}
use maid_cafe.Base.Filepath.Elements.{Proper, NoSlash, split-NoSlash}
use maid_cafe.Privfs.Path.Confined.{All-reverse}
use maid_cafe.Base.Text.{
  contains_byte, split, join, cons_to_first, Bytes, codes, has_prefix, strip_prefix, str_eq,
  str_eq_iff,
}
use maid_cafe.Daemon.Files.{
  FileRoot, path_inside, better, best_root, trim_prefix, relative_to, resolve, clean_roots,
  new_file_policy, FilePolicy, FilesConfig, FileTarget,
}
use maid_cafe.Daemon.Files.Resolve.Longest.{NoLonger, best_root-none}
use maid_cafe.Base.Filepath.Rooted.{clean-absolute}
use maid_cafe.Daemon.Files.Resolve.Below.{BelowRoot, path_inside-BelowRoot}

-- what `resolve` makes of the root that it finds
pub resolve_ok :
    (p : FilePolicy) (raw : Bytes) (t : FileTarget)
    → resolve p raw ≡ ok t
    → (root : FileRoot) × (is_abs raw ≡ true)
      × (best_root (clean raw) p.roots none ≡ some root)
      × (t ≡ record {
        root_path = root.path;
        rel = relative_to root.path (clean raw);
        path = clean raw;
        privileged = root.privileged;
        profile = root.profile;
      })
unfolding resolve
resolve_ok p raw t h = elim (Option-cases (best_root (clean raw) p.roots none)) [
  | inl missing ↦ ground (arith, missing)
  | inr (root, found) ↦ (root, ground (arith, found), found, ground (arith, found))
]

-- a root of the policy
pub Rooted : FileRoot → Type 0
Rooted root = root.path ≢ []

-- a root of the configuration, which loading it has checked
unfoldable pub Absolute : FileRoot → Type 0
Absolute root = is_abs root.path ≡ true

clean_roots-Rooted : (roots : List FileRoot) → All Absolute roots → All Rooted (clean_roots roots)
unfolding clean_roots Absolute Rooted
clean_roots-Rooted [] h = tt
clean_roots-Rooted (root ∷ roots) (a, h) =
    let (names, proper, e) = clean-absolute root.path a in
    (rw e (λ none_left. cc none_left), clean_roots-Rooted roots h)

pub new_file_policy-Rooted :
    (cfg : FilesConfig) (p : FilePolicy)
    → All Absolute cfg.roots
    → new_file_policy cfg ≡ some p
    → All Rooted p.roots
unfolding new_file_policy
new_file_policy-Rooted cfg p h e =
    let same : p.roots ≡ clean_roots cfg.roots = ground arith in
    rw same (clean_roots-Rooted cfg.roots h)

-- where the target of a request lies
pub record Located (p : FilePolicy) (raw : Bytes) (t : FileTarget) (root : FileRoot) : Type 0 where
  pub listed : Among root p.roots
  pub same_root : t.root_path ≡ root.path
  pub same_privilege : t.privileged ≡ root.privileged
  pub same_profile : t.profile ≡ root.profile
  pub cleaned : t.path ≡ clean raw
  pub longest : All (NoLonger t.path root) p.roots
  pub below : BelowRoot t.root_path t.rel t.path

-- A path that `resolve` accepts lies in a root of the policy, and no root that it also lies in has a
-- longer path; the target has that root's privilege and profile. The target is the root itself, or
-- its path below the root is names of entries, none of them `.` or `..`, which the root's path and a
-- slash complete to the clean path. The roots of the configuration are absolute.
pub resolve-Located :
    (cfg : FilesConfig) (p : FilePolicy) (raw : Bytes) (t : FileTarget)
    → All Absolute cfg.roots
    → new_file_policy cfg ≡ some p
    → resolve p raw ≡ ok t
    → (root : FileRoot) × Located p raw t root
unfolding Rooted
resolve-Located cfg p raw t absolute made h =
    let (root, abs, found, e) = resolve_ok p raw t h in
    let (among, within, longest) = best_root-none (clean raw) p.roots root found in
    let (names, proper, text) = clean-absolute raw abs in
    let rooted = All-Among Rooted p.roots root (new_file_policy-Rooted cfg p absolute made) among in
    (
      root,
      rw e (record {
        listed = among;
        same_root = refl;
        same_privilege = refl;
        same_profile = refl;
        cleaned = refl;
        longest = longest;
        below = rw text (path_inside-BelowRoot root.path names proper rooted (rw text at within));
      }),
    )
