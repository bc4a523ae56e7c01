-- ===== src/Privfs/Mode/Laws.antt =====
-- What `ParseMode` lets through, and that it reads what the daemon writes.
use maid_cafe.Base.{
  ok, ◌≡◌, refl, arith, true, zero, suc, ℕ, ◌<◌, Bool, ◌↔◌, ◌&&◌, ◌==◌, ◌/◌, err, ◌%◌, not, List,
  [], &&_split, ◌∷◌, Bool-cases, inl, ==_iff, inr,
}
use maid_cafe.Base.Text.{Bytes, trim_space, has_prefix, all_bytes}
use maid_cafe.Privfs.Mode.{parse_mode, allowed_mode, format_mode}

-- A permitted mode has no setuid, setgid or sticky bit and lets neither group nor others write.
allowed_mode_bits :
    (m : ℕ) → allowed_mode m ≡ true → (m < 0o1000) × (m / 0o20 % 2 ≡ 0) × (m / 0o2 % 2 ≡ 0)
unfolding allowed_mode
allowed_mode_bits m h = ground arith

-- A mode that `ParseMode` returns is permitted, has no setuid, setgid or sticky bit, and lets
-- neither group nor others write.
pub parse_mode_safe :
    (raw : Bytes) (m : ℕ)
    → parse_mode raw ≡ ok m
    → (allowed_mode m ≡ true) × (m < 0o1000) × (m / 0o20 % 2 ≡ 0) × (m / 0o2 % 2 ≡ 0)
unfolding parse_mode
parse_mode_safe raw m h =
    let p : allowed_mode m ≡ true = ground arith in
    let (below, group, other) = allowed_mode_bits m p in (p, below, group, other)

-- the numbers below a bound, and a test that holds of all of them
below : ℕ → List ℕ
below zero = []
below (suc bound) = bound ∷ below bound

below-passes :
    (passes : ℕ → Bool) (bound : ℕ) {m : ℕ}
    → all_bytes passes (below bound) ≡ true
    → m < bound
    → passes m ≡ true
unfolding below all_bytes
below-passes passes zero t lt = absurd (omega arith)
below-passes passes (suc bound) {m} t lt =
    let (top, rest) = &&_split _ _ t in
    elim (Bool-cases (m == bound)) [
      | inl last ↦ rw ((==_iff m bound).0 last) top
      | inr lower ↦ below-passes passes bound rest (ground arith)
    ]

reads_back : ℕ → Bool
reads_back m = elim (parse_mode (format_mode m)) [
  | ok n ↦ (n == m) && allowed_mode m
  | err e ↦ not (allowed_mode m)
]

reads_back_table : all_bytes reads_back (below 512) ≡ true
unfolding below all_bytes reads_back parse_mode format_mode allowed_mode trim_space has_prefix
reads_back_table = refl

-- The helper reads the permission bits that the daemon prints as those bits, if the mode is
-- permitted, and refuses every other one.
pub parse_mode-format_mode :
    (m : ℕ) → m < 0o1000 → (parse_mode (format_mode m) ≡ ok m) ↔ (allowed_mode m ≡ true)
unfolding reads_back
parse_mode-format_mode m h =
    let t : reads_back m ≡ true = below-passes reads_back 512 reads_back_table h in
    (λ e. ground arith, λ a. ground arith)
