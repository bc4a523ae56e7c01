-- ===== src/Daemon/Webhook/Script/Quoting.antt =====
-- The line with the working directory, read back as a shell reads it.
use maid_cafe.Base.{
  ◌==◌, ==_iff, if◌then◌else◌, Bool-cases, ℕ, true, false, ◌||◌, ◌≡◌, refl, sym, ap, ◌∙◌, ◌⊎◌, inl,
  inr, Option-cases, Option, none, some, [], ◌∷◌, ◌++◌, arith, append_assoc, append-nil,
}
use maid_cafe.Base.Text.{Bytes, codes, has_prefix, contains_byte, cut}
use maid_cafe.Base.Text.Cuts.{cut-some, cut-none}
use maid_cafe.Daemon.Webhook.Script.{escape_quotes, quoted_word, cd_line, prepend_working_directory}

-- the characters that a shell tells apart in a word without variables
pub data ShellKind : Type 0 where
  single_quote backslash space plain : ShellKind

unfoldable pub shell_kind : ℕ → ShellKind
shell_kind c =
    if c == b'\''
    then single_quote
    else if c == b'\\'
    then backslash
    else if (c == 0x20) || (c == b'\n')
    then space
    else plain

pub data ShellState : Type 0 where
  bare quoted escaped : ShellState

unfoldable pub cons_word : ℕ → Option (Bytes × Bytes) → Option (Bytes × Bytes)
cons_word c none = none
cons_word c (some (word, rest)) = some (c ∷ word, rest)

-- The first word of a line, by the rules of quoting of a shell, and what follows it; none if a quote
-- is left open.
unfoldable pub shell_word : ShellState → Bytes → Option (Bytes × Bytes)
unfolding shell_kind cons_word
shell_word bare [] = some ([], [])
shell_word quoted [] = none
shell_word escaped [] = none
shell_word bare (c ∷ s) = elim (shell_kind c) [
  | single_quote ↦ shell_word quoted s
  | backslash ↦ shell_word escaped s
  | space ↦ some ([], c ∷ s)
  | plain ↦ cons_word c (shell_word bare s)
]
shell_word quoted (c ∷ s) = elim (shell_kind c) [
  | single_quote ↦ shell_word bare s
  | backslash ↦ cons_word c (shell_word quoted s)
  | space ↦ cons_word c (shell_word quoted s)
  | plain ↦ cons_word c (shell_word quoted s)
]
shell_word escaped (c ∷ s) = cons_word c (shell_word bare s)

shell_word-quoted :
    (c : ℕ) (s : Bytes)
    → (c == b'\'') ≡ false
    → shell_word quoted (c ∷ s) ≡ cons_word c (shell_word quoted s)
unfolding shell_word shell_kind
shell_word-quoted c s h = ground arith

shell_word-escape_quotes :
    (cwd rest : Bytes)
    → shell_word quoted (escape_quotes cwd ++ (b'\'' ∷ b'\n' ∷ rest)) ≡ some (cwd, b'\n' ∷ rest)
unfolding shell_word escape_quotes shell_kind cons_word
shell_word-escape_quotes [] rest = refl
shell_word-escape_quotes (c ∷ s) rest =
    let again = shell_word-escape_quotes s rest in
    elim (Bool-cases (c == b'\'')) [
      | inl quote ↦ rw ((==_iff c b'\'').0 quote, again) refl
      | inr other ↦
          rw other
            (rw (shell_word-quoted c (escape_quotes s ++ (b'\'' ∷ b'\n' ∷ rest)) other, again) refl)
    ]

-- a script that changes into a directory first, after its first line if that names an interpreter
pub record ChangesInto (cwd script result : Bytes) : Type 0 where
  pub head : Bytes
  pub word : Bytes
  pub tail : Bytes
  pub text : result ≡ head ++ (codes "cd -- " ++ (word ++ (b'\n' ∷ tail)))
  -- the script itself is what is left, but for a newline that may be missing at its end
  pub kept : (script ≡ head ++ tail) ⊎ ((head ≡ script ++ (b'\n' ∷ [])) × (tail ≡ []))
  pub first :
      (head ≡ [])
      ⊎ ((line : Bytes) × (head ≡ line ++ (b'\n' ∷ [])) × (contains_byte line b'\n' ≡ false))
  pub shebang : has_prefix script (codes "#!") ≡ true → has_prefix head (codes "#!") ≡ true
  pub read_back : shell_word bare (word ++ (b'\n' ∷ tail)) ≡ some (cwd, b'\n' ∷ tail)

quoted_word-bare :
    (cwd tail : Bytes)
    → shell_word bare (quoted_word cwd ++ (b'\n' ∷ tail)) ≡ some (cwd, b'\n' ∷ tail)
unfolding quoted_word shell_word shell_kind
quoted_word-bare cwd tail =
    rw (append_assoc (escape_quotes cwd) (codes "'") (b'\n' ∷ tail))
      (shell_word-escape_quotes cwd tail)

cd_line-append :
    (cwd tail : Bytes) → cd_line cwd ++ tail ≡ codes "cd -- " ++ (quoted_word cwd ++ (b'\n' ∷ tail))
unfolding cd_line
cd_line-append cwd tail =
    ap (λ (z : Bytes). codes "cd -- " ++ z) (append_assoc (quoted_word cwd) (b'\n' ∷ []) tail)

has_prefix-cut :
    (script head tail : Bytes)
    → script ≡ head ++ (b'\n' ∷ tail)
    → has_prefix script (codes "#!") ≡ true
    → has_prefix (head ++ (b'\n' ∷ [])) (codes "#!") ≡ true
unfolding has_prefix
has_prefix-cut script [] tail e h = ground (arith, rw e at h)
has_prefix-cut script (a ∷ []) tail e h = ground (arith, rw e at h)
has_prefix-cut script (a ∷ b ∷ head) tail e h = ground (arith, rw e at h)

has_prefix-end :
    (script : Bytes)
    → has_prefix script (codes "#!") ≡ true
    → has_prefix (script ++ (b'\n' ∷ [])) (codes "#!") ≡ true
unfolding has_prefix
has_prefix-end [] h = cc h
has_prefix-end (a ∷ []) h = ground arith
has_prefix-end (a ∷ b ∷ script) h = ground arith

-- `prependWorkingDirectory` inserts one line, `cd --` and a word, at the front of the script or, if
-- its first line begins with `#!`, behind that line, and leaves the rest of the script as it is, but
-- for a newline that it adds to such a line that has none. Read by the rules of quoting of a shell,
-- the word is exactly the directory, whatever characters the directory has.
pub prepend_working_directory-ChangesInto :
    (cwd script : Bytes) → ChangesInto cwd script (prepend_working_directory cwd script)
unfolding prepend_working_directory
prepend_working_directory-ChangesInto cwd script =
    elim (Bool-cases (has_prefix script (codes "#!"))) [
      | inr unmarked ↦ rw unmarked (record {
        head = [];
        word = quoted_word cwd;
        tail = script;
        text = cd_line-append cwd script;
        kept = inl refl;
        first = inl refl;
        shebang = λ h. cc (sym unmarked ∙ h);
        read_back = quoted_word-bare cwd script;
      })
      | inl shebang ↦ elim (Option-cases (cut b'\n' script)) [
        | inl whole ↦
            rw (shebang, whole)
              (record {
                head = script ++ (b'\n' ∷ []);
                word = quoted_word cwd;
                tail = [];
                text =
                    ap (λ (z : Bytes). (script ++ (b'\n' ∷ [])) ++ z)
                      (sym (append-nil (cd_line cwd)) ∙ cd_line-append cwd []);
                kept = inr (refl, refl);
                first = inr (script, refl, cut-none b'\n' script whole);
                shebang = λ h. has_prefix-end script h;
                read_back = quoted_word-bare cwd [];
              })
        | inr ((line, tail), e) ↦
            let (text, clear) = cut-some b'\n' script line tail e in
            rw (shebang, e)
              (record {
                head = line ++ (b'\n' ∷ []);
                word = quoted_word cwd;
                tail = tail;
                text = ap (λ (z : Bytes). (line ++ (b'\n' ∷ [])) ++ z) (cd_line-append cwd tail);
                kept = inl (text ∙ sym (append_assoc line (b'\n' ∷ []) tail));
                first = inr (line, refl, clear);
                shebang = λ h. has_prefix-cut script line tail text shebang;
                read_back = quoted_word-bare cwd tail;
              })
      ]
    ]
