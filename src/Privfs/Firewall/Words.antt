-- ===== src/Privfs/Firewall/Words.antt =====
-- The words of a rule that `ParseFirewallRule` returns (firewall.go).
use maid_cafe.Base.{◌==◌, All, ℕ, ◌≤◌, ◌≡◌, Bool, true, false, ◌||◌, [], ◌∷◌}
use maid_cafe.Base.Text.{Bytes, codes, str_eq, has_prefix, all_bytes, split}
use maid_cafe.Privfs.Names.{is_digit}
use maid_cafe.Privfs.Firewall.{atoi}
use maid_cafe.Privfs.Firewall.Sources.{is_address_byte}

-- letters, digits, and the marks of addresses, ranges and names
abbrev pub is_word_byte : ℕ → Bool
is_word_byte c = is_address_byte c || ((c == b'_') || (c == b'-'))

-- a word of these characters that does not begin with a dash
pub record Word (s : Bytes) : Type 0 where
  pub not_empty : str_eq s [] ≡ false
  pub no_option : has_prefix s (codes "-") ≡ false
  pub bytes : all_bytes is_word_byte s ≡ true

starts_digit : Bytes → Bool
starts_digit [] = false
starts_digit (c ∷ s) = is_digit c

-- a number of a port
abbrev pub PortNumber : Bytes → Type 0
PortNumber s = (1 ≤ atoi s 0) × (atoi s 0 ≤ 65535)

-- The port is a service name, which begins with a letter, or one number or more in their range.
pub Port : Bytes → Type 0
Port port = starts_digit port ≡ true → All PortNumber (split b':' port)
