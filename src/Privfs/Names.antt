-- ===== src/Privfs/Names.antt =====
-- The anchored regular expressions of internal/privfs that a caller's names are matched against.
-- Each is a first class, a class for the rest and a bound on the length, as it is written there.
-- A byte outside ASCII is in none of the classes.
use maid_cafe.Base.{
  ℕ, suc, ◌≤◌, ◌≡◌, refl, Bool, true, false, ◌&&◌, ◌||◌, [], ◌∷◌, leb, length, arith,
}
use maid_cafe.Base.Text.{Bytes, all_bytes, contains_byte, has_prefix}

abbrev pub is_digit : ℕ → Bool
is_digit c = leb b'0' c && leb c b'9'

abbrev pub is_lower : ℕ → Bool
is_lower c = leb b'a' c && leb c b'z'

abbrev pub is_upper : ℕ → Bool
is_upper c = leb b'A' c && leb c b'Z'

abbrev pub is_alnum : ℕ → Bool
is_alnum c = is_digit c || (is_lower c || is_upper c)

-- `^[first][rest]{0,most}$`
unfoldable pub matches : (ℕ → Bool) → (ℕ → Bool) → ℕ → Bytes → Bool
unfolding all_bytes
matches first rest most [] = false
matches first rest most (c ∷ s) = first c && (all_bytes rest s && leb (length s) most)

-- a byte that a class refuses is not in a text of that class
pub contains_byte-all_bytes :
    (p : ℕ → Bool) (b : ℕ) (s : Bytes)
    → p b ≡ false
    → all_bytes p s ≡ true
    → contains_byte s b ≡ false
unfolding all_bytes contains_byte
contains_byte-all_bytes p b [] hp h = refl
contains_byte-all_bytes p b (c ∷ s) hp h = ground (arith, contains_byte-all_bytes p b s)

-- a byte that both classes refuse is not in a text that matches
pub contains_byte-matches :
    (first rest : ℕ → Bool) (most b : ℕ) (s : Bytes)
    → first b ≡ false
    → rest b ≡ false
    → matches first rest most s ≡ true
    → contains_byte s b ≡ false
unfolding matches contains_byte
contains_byte-matches first rest most b [] hf hr h = refl
contains_byte-matches first rest most b (c ∷ s) hf hr h =
    ground (arith, contains_byte-all_bytes rest b s)

-- a text that matches is not empty, and does not begin with a byte that `first` refuses
pub has_prefix-matches :
    (first rest : ℕ → Bool) (most b : ℕ) (s : Bytes)
    → first b ≡ false
    → matches first rest most s ≡ true
    → has_prefix s (b ∷ []) ≡ false
unfolding matches has_prefix
has_prefix-matches first rest most b [] hf h = cc
has_prefix-matches first rest most b (c ∷ s) hf h = ground arith

pub length-matches :
    (first rest : ℕ → Bool) (most : ℕ) (s : Bytes)
    → matches first rest most s ≡ true
    → (1 ≤ length s) × (length s ≤ suc most)
unfolding matches
length-matches first rest most [] h = cc
length-matches first rest most (c ∷ s) h = ground arith
