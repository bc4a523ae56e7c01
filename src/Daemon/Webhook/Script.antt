-- ===== src/Daemon/Webhook/Script.antt =====
-- The scripts and command lines of internal/daemon/webhook.go: template values, the working directory
-- of a script, and the command that a hook runs.
pub mod Quoting
use maid_cafe.Base.{
  ltb, leb, ◌==◌, if◌then◌else◌, length, take, ℕ, suc, zero, Bool, true, false, not, ◌&&◌, ◌||◌,
  Option, none, some, List, [], ◌∷◌, ◌++◌, Result, ok, err,
}
use mathlib.Core.List.{reverse}
use maid_cafe.Base.Text.{Bytes, codes, str_eq, has_prefix, strip_prefix, cut}
use maid_cafe.Daemon.Webhook.{Hook}

-- `\s` of an expression
unfoldable pub is_blank : ℕ → Bool
is_blank c = (c == 0x20) || (leb 0x09 c && leb c 0x0a) || (leb 0x0c c && leb c 0x0d)

-- the bytes before the first brace, and the rest
unfoldable pub span_plain : Bytes → Bytes × Bytes
span_plain [] = ([], [])
span_plain (c ∷ s) =
    let (u, v) = span_plain s in if (c == b'{') || (c == b'}') then ([], c ∷ s) else (c ∷ u, v)

-- Drops blanks from the front, but keeps the last byte.
unfoldable pub drop_blanks : Bytes → Bytes
unfolding is_blank
drop_blanks [] = []
drop_blanks (c ∷ []) = c ∷ []
drop_blanks (c ∷ d ∷ s) = let rest = drop_blanks (d ∷ s) in if is_blank c then rest else c ∷ d ∷ s

-- the group of `templateVarPattern`, from the text between the braces
unfoldable pub group_of : Bytes → Bytes
unfolding drop_blanks
group_of content = reverse (drop_blanks (reverse (drop_blanks content)))

-- A placeholder at the front of a text: its name, its own text, and the rest.
unfoldable pub placeholder : Bytes → Option (Bytes × Bytes × Bytes)
unfolding span_plain group_of
placeholder s = elim (strip_prefix s (codes "{{")) [
  | none ↦ none
  | some inner ↦
      let (content, behind) = span_plain inner in
      elim (strip_prefix behind (codes "}}")) [
        | none ↦ none
        | some rest ↦
            if str_eq content []
            then none
            else some (group_of content, codes "{{" ++ (content ++ codes "}}"), rest)
      ]
]

-- The text with its placeholders replaced, and the names without a value. Each round drops a byte or
-- more, so the length of the text is fuel enough.
unfoldable pub replace_placeholders : ℕ → (Bytes → Option Bytes) → Bytes → Bytes × List Bytes
unfolding placeholder
replace_placeholders zero values s = (s, [])
replace_placeholders (suc n) values [] = ([], [])
replace_placeholders (suc n) values (c ∷ s) = elim (placeholder (c ∷ s)) [
  | none ↦ let (t, missing) = replace_placeholders n values s in (c ∷ t, missing)
  | some (name, own, rest) ↦
      let (t, missing) = replace_placeholders n values rest in
      elim (values name) [ none ↦ (own ++ t, name ∷ missing) | some value ↦ (value ++ t, missing) ]
]

-- why there is no script to run
pub data ScriptError : Type 0 where
  unread_script : ScriptError
  requires : List Bytes → ScriptError
  not_rendered : ScriptError

-- `substituteScriptTemplate`, from the script as it was read and the values of the request's body,
-- each as it is printed
unfoldable pub substitute_script_template :
    Option Bytes → (Bytes → Option Bytes) → Result ScriptError Bytes
unfolding replace_placeholders
substitute_script_template none values = err unread_script
substitute_script_template (some source) values =
    let (text, missing) = replace_placeholders (length source) values source in
    elim missing [ [] ↦ ok text | name ∷ names ↦ err (requires (name ∷ names)) ]

-- `strings.ReplaceAll(cwd, "'", "'\\''")`
unfoldable pub escape_quotes : Bytes → Bytes
escape_quotes [] = []
escape_quotes (c ∷ s) =
    let rest = escape_quotes s in
    if c == b'\'' then b'\'' ∷ b'\\' ∷ b'\'' ∷ b'\'' ∷ rest else c ∷ rest

-- the directory as a word of the shell
unfoldable pub quoted_word : Bytes → Bytes
unfolding escape_quotes
quoted_word cwd = b'\'' ∷ (escape_quotes cwd ++ codes "'")

-- the line that `prependWorkingDirectory` inserts
unfoldable pub cd_line : Bytes → Bytes
unfolding quoted_word
cd_line cwd = codes "cd -- " ++ (quoted_word cwd ++ (b'\n' ∷ []))

-- `prependWorkingDirectory`
unfoldable pub prepend_working_directory : Bytes → Bytes → Bytes
unfolding cd_line
prepend_working_directory cwd script =
    if has_prefix script (codes "#!")
    then elim (cut b'\n' script) [
      | some (head, tail) ↦ (head ++ (b'\n' ∷ [])) ++ (cd_line cwd ++ tail)
      | none ↦ (script ++ (b'\n' ∷ [])) ++ cd_line cwd
    ]
    else cd_line cwd ++ script

-- a command: its arguments, its directory unless it is the daemon's own, and what is added to the
-- daemon's environment
pub record CommandLine : Type 0 where
  pub argv : List Bytes
  pub dir : Option Bytes
  pub extra_env : List Bytes

-- `buildRunCommand`
unfoldable pub build_run_command : Hook → Bytes → List Bytes → CommandLine
build_run_command hook command args =
    if str_eq hook.user []
    then record {
      argv = command ∷ args;
      dir = some (if str_eq hook.cwd [] then codes "/" else hook.cwd);
      extra_env = hook.env;
    }
    else record {
      argv = codes "sudo" ∷ codes "-H" ∷ codes "-u" ∷ hook.user ∷ (hook.env ++ (command ∷ args));
      dir = if not hook.script && not (str_eq hook.cwd []) then some hook.cwd else none;
      extra_env = [];
    }
