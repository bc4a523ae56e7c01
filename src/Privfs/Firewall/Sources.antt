-- ===== src/Privfs/Firewall/Sources.antt =====
-- The characters of a rule's source, which is an address or a block (firewall.go).
use maid_cafe.Base.{
  ◌==◌, ==_iff, Bool-cases, All, Option-cases, ℕ, zero, suc, ◌+◌, ◌*◌, ◌≡◌, refl, inl, inr, Bool,
  true, ◌||◌, some, List, [], ◌∷◌, arith, Option, Option, none, if◌then◌else◌, ◌++◌, false, false,
  if◌then◌else◌, ◌++◌, length, length,
}
use maid_cafe.Base.Text.{
  Bytes, all_bytes, split, cons_to_first, strip_prefix, codes, strip_prefix_lem, cut,
}
use maid_cafe.Base.Text.Cuts.{cut-some}
use maid_cafe.Base.Text.Graphic.{all_bytes-append, all_bytes-weaken}
use maid_cafe.Privfs.Names.{is_digit, is_alnum}
use maid_cafe.Privfs.Firewall.Address.{
  octet, parse_four, hex_value, hex_group, groups, starts_hex, two_bytes, fill, parse_sixteen,
  parse_addr, is_ip, is_cidr, parse_cidr,
}

-- letters, digits, and the separators of addresses and blocks
abbrev pub is_address_byte : ℕ → Bool
is_address_byte c = is_alnum c || ((c == b'.') || ((c == b':') || (c == b'/')))

-- a text of these characters
unfoldable pub Inert : Bytes → Type 0
Inert s = all_bytes is_address_byte s ≡ true

Inert-cons_to_first :
    (c : ℕ) (parts : List Bytes)
    → All Inert (cons_to_first c parts)
    → (is_address_byte c ≡ true) × All Inert parts
unfolding cons_to_first all_bytes Inert
Inert-cons_to_first c [] (h, hs) = (ground arith, tt)
Inert-cons_to_first c (p ∷ ps) (h, hs) = (ground arith, (ground arith, hs))

Inert-split : (b : ℕ) (s : Bytes) → is_address_byte b ≡ true → All Inert (split b s) → Inert s
unfolding split all_bytes Inert
Inert-split b [] hb h = refl
Inert-split b (c ∷ s) hb h = elim (Bool-cases (c == b)) [
  | inl cuts ↦
      let (none_before, rest) = rw (cuts, split) at h in
      let plain : is_address_byte c ≡ true = rw ((==_iff c b).0 cuts) hb in
      rw plain (Inert-split b s hb rest)
  | inr other ↦
      let (plain, rest) = Inert-cons_to_first c (split b s) (rw (other, split) at h) in
      rw plain (Inert-split b s hb rest)
]

Inert-octet : (s : Bytes) (n : ℕ) → octet s ≡ some n → Inert s
unfolding octet Inert all_bytes
Inert-octet [] n h = cc h
Inert-octet (c ∷ s) n h =
    let digits : all_bytes is_digit (c ∷ s) ≡ true = ground arith in
    all_bytes-weaken is_digit is_address_byte (c ∷ s) (λ d p. ground arith) digits

Inert-parse_four : (s : Bytes) (a : List ℕ) → parse_four s ≡ some a → Inert s
unfolding parse_four
Inert-parse_four s a h = Inert-split b'.' s refl (go (split b'.' s) refl)
  where
    go : (parts : List Bytes) → split b'.' s ≡ parts → All Inert parts
    go [] e = tt
    go (p ∷ []) e = cc (rw (e, parse_four) at h)
    go (p ∷ q ∷ []) e = cc (rw (e, parse_four) at h)
    go (p ∷ q ∷ r ∷ []) e = cc (rw (e, parse_four) at h)
    go (p ∷ q ∷ r ∷ t ∷ []) e = elim (Option-cases (octet p)) [
      | inl bad ↦ cc (rw (e, bad, parse_four) at h)
      | inr (x, hp) ↦ elim (Option-cases (octet q)) [
        | inl bad ↦ cc (rw (e, hp, bad, parse_four) at h)
        | inr (y, hq) ↦ elim (Option-cases (octet r)) [
          | inl bad ↦ cc (rw (e, hp, hq, bad, parse_four) at h)
          | inr (z, hr) ↦ elim (Option-cases (octet t)) [
            | inl bad ↦ cc (rw (e, hp, hq, hr, bad, parse_four) at h)
            | inr (w, ht) ↦ (
              Inert-octet p x hp,
              (Inert-octet q y hq, (Inert-octet r z hr, (Inert-octet t w ht, tt))),
            )
          ]
        ]
      ]
    ]
    go (p ∷ q ∷ r ∷ t ∷ u ∷ ps) e = cc (rw (e, parse_four) at h)

Inert-hex_value : (c v : ℕ) → hex_value c ≡ some v → is_address_byte c ≡ true
unfolding hex_value
Inert-hex_value c v h = ground arith

Inert-hex_group :
    (room acc : ℕ) (s : Bytes) (v : ℕ) (rest : Bytes)
    → hex_group room acc s ≡ some (v, rest)
    → Inert rest
    → Inert s
unfolding hex_group Inert all_bytes
Inert-hex_group room acc [] v rest h i = refl
Inert-hex_group zero acc (c ∷ s) v rest h i = elim (Option-cases (hex_value c)) [
  | inl other ↦ ground (arith, rw (other, hex_group) at h)
  | inr (d, digit) ↦ cc (rw (digit, hex_group) at h)
]
Inert-hex_group (suc room) acc (c ∷ s) v rest h i = elim (Option-cases (hex_value c)) [
  | inl other ↦ ground (arith, rw (other, hex_group) at h)
  | inr (d, digit) ↦
      let deeper = Inert-hex_group room (acc * 16 + d) s v rest (rw (digit, hex_group) at h) i in
      rw (Inert-hex_value c d digit) deeper
]

-- what `groups` leaves unread
Unread : Option (List ℕ × Option ℕ × Bytes) → Bytes → Type 0
Unread none s = Unit
Unread (some (bytes, gap, rest)) s = Inert rest → Inert s

Unread-from :
    (o : Option (List ℕ × Option ℕ × Bytes)) (s t : Bytes)
    → (Inert t → Inert s)
    → Unread o t
    → Unread o s
unfolding Unread
Unread-from none s t f u = tt
Unread-from (some (bytes, gap, rest)) s t f u = λ i. f (u i)

Unread-if :
    (b : Bool) (o : Option (List ℕ × Option ℕ × Bytes)) (s : Bytes)
    → Unread o s
    → Unread (if b then none else o) s
unfolding Unread
Unread-if true o s u = tt
Unread-if false o s u = u

Unread-four :
    (bytes : List ℕ) (gap : Option ℕ) (s : Bytes)
    → Unread (elim (parse_four s) [ none ↦ none | some q ↦ some (bytes ++ q, gap, []) ]) s
unfolding Unread
Unread-four bytes gap s = elim (Option-cases (parse_four s)) [
  | inl bad ↦ rw bad tt
  | inr (q, e) ↦ rw e (λ i. Inert-parse_four s q e)
]

Inert-cons : (c : ℕ) (s : Bytes) → is_address_byte c ≡ true → Inert s → Inert (c ∷ s)
unfolding Inert all_bytes
Inert-cons c s h i = rw h i

Inert-nil : Inert []
unfolding Inert all_bytes
Inert-nil = refl

plain_byte : (b c : ℕ) → (c == b) ≡ true → is_address_byte b ≡ true → is_address_byte c ≡ true
plain_byte b c e h = rw ((==_iff c b).0 e) h

-- what follows a group and a colon, given the same for fewer groups
Unread-colon :
    (room : ℕ) (bytes : List ℕ) (gap : Option ℕ) (s : Bytes) (v c : ℕ) (more : Bytes)
    → ((bytes' : List ℕ) (gap' : Option ℕ) (s' : Bytes) → Unread (groups room bytes' gap' s') s')
    → hex_group 4 0 s ≡ some (v, c ∷ more)
    → (Inert (c ∷ more) → Inert s)
    → starts_hex s ≡ true
    → (c == b'.') ≡ false
    → (c == b':') ≡ true
    → is_address_byte c ≡ true
    → Unread (groups (suc room) bytes gap s) s
unfolding groups
Unread-colon room bytes gap s v c [] again e whole starts no_dot colon plain =
    rw (starts, e, no_dot, colon, groups) (unfold Unread in tt)
Unread-colon room bytes gap s v c (d ∷ after) again e whole starts no_dot colon plain =
    elim (Bool-cases (d == b':')) [
      | inr next ↦
          rw (starts, e, no_dot, colon, next, groups)
            (Unread-from _ s (d ∷ after) (λ i. whole (Inert-cons c (d ∷ after) plain i))
              (again _ gap (d ∷ after)))
      | inl double ↦
          rw (starts, e, no_dot, colon, double, groups)
            (go gap after (λ i. whole (
              Inert-cons c (d ∷ after) plain
                (Inert-cons d after (plain_byte b':' d double refl) i))))
    ]
  where
    go :
        (g : Option ℕ) (rest : Bytes)
        → (Inert rest → Inert s)
        → Unread
            (elim g [
              | some k ↦ none
              | none ↦ elim rest [
                | [] ↦ some (bytes ++ two_bytes v, some (length bytes + 2), [])
                | x ∷ xs ↦ groups room (bytes ++ two_bytes v) (some (length bytes + 2)) (x ∷ xs)
              ]
            ])
            s
    go (some k) rest f = unfold Unread in tt
    go none [] f = unfold Unread in λ i. f i
    go none (x ∷ xs) f = Unread-from _ s (x ∷ xs) f (again _ _ (x ∷ xs))

Inert-groups :
    (room : ℕ) (bytes : List ℕ) (gap : Option ℕ) (s : Bytes) → Unread (groups room bytes gap s) s
unfolding groups Unread
Inert-groups zero bytes gap s = λ i. i
Inert-groups (suc room) bytes gap s = elim (Bool-cases (starts_hex s)) [
  | inr other ↦ rw (other, groups) tt
  | inl starts ↦ elim (Option-cases (hex_group 4 0 s)) [
    | inl bad ↦ rw (starts, bad, groups) tt
    | inr ((v, []), e) ↦ rw (starts, e, groups) (λ i. Inert-hex_group 4 0 s v [] e i)
    | inr ((v, c ∷ more), e) ↦
        let whole = Inert-hex_group 4 0 s v (c ∷ more) e in
        elim (Bool-cases (c == b'.')) [
          | inl dot ↦ rw (starts, e, dot, groups) (Unread-if _ _ s (Unread-four bytes gap s))
          | inr no_dot ↦ elim (Bool-cases (c == b':')) [
            | inr odd ↦ rw (starts, e, no_dot, odd, groups) tt
            | inl colon ↦
                Unread-colon room bytes gap s v c more (Inert-groups room) e whole starts no_dot
                  colon (plain_byte b':' c colon refl)
          ]
        ]
  ]
]

-- an address is made of groups that are read to the end
Inert-fill :
    (o : Option (List ℕ × Option ℕ × Bytes)) (s : Bytes) (a : List ℕ)
    → fill o ≡ some a
    → Unread o s
    → Inert s
unfolding fill Unread
Inert-fill none s a h u = cc h
Inert-fill (some (bytes, gap, c ∷ rest)) s a h u = cc h
Inert-fill (some (bytes, none, [])) s a h u = u Inert-nil
Inert-fill (some (bytes, some k, [])) s a h u = u Inert-nil

Inert-parse_sixteen : (s : Bytes) (a : List ℕ) → parse_sixteen s ≡ some a → Inert s
unfolding parse_sixteen
Inert-parse_sixteen s a h = elim (Option-cases (strip_prefix s (codes "::"))) [
  | inl other ↦
      Inert-fill (groups 8 [] none s) s a (rw (other, parse_sixteen) at h)
        (Inert-groups 8 [] none s)
  | inr ([], e) ↦
      rw (strip_prefix_lem s (codes "::") e) (Inert-cons _ _ refl (Inert-cons _ _ refl Inert-nil))
  | inr ((c ∷ rest), e) ↦ rw (strip_prefix_lem s (codes "::") e) (
      Inert-cons _ _ refl (
        Inert-cons _ _ refl (
          Inert-fill (groups 8 [] (some 0) (c ∷ rest)) (c ∷ rest) a (rw (e, parse_sixteen) at h)
            (Inert-groups 8 [] (some 0) (c ∷ rest)))))
]

Inert-parse_addr : (s : Bytes) (a : List ℕ) → parse_addr s ≡ some a → Inert s
unfolding parse_addr
Inert-parse_addr s a h = ground (arith, Inert-parse_four s a, Inert-parse_sixteen s a)

pub Inert-source : (s : Bytes) → is_ip s || is_cidr s ≡ true → Inert s
unfolding is_ip is_cidr parse_cidr
Inert-source s h = elim (Option-cases (parse_addr s)) [
  | inr (a, e) ↦ Inert-parse_addr s a e
  | inl no_address ↦ elim (Option-cases (cut b'/' s)) [
    | inl uncut ↦ absurd (ground (arith, no_address, uncut))
    | inr ((text, mask), e) ↦ elim (Option-cases (parse_addr text)) [
      | inl bad ↦ absurd (ground (arith, no_address, e, bad))
      | inr (a, found) ↦
          let digits : all_bytes is_digit mask ≡ true = ground (arith, no_address, e, found) in
          let (whole, lacks) = cut-some b'/' s text mask e in
          rw whole (
            unfold Inert in
            all_bytes-append is_address_byte text (b'/' ∷ mask)
              (unfold Inert in Inert-parse_addr text a found)
              (Inert-cons b'/' mask refl
                (all_bytes-weaken is_digit is_address_byte mask (λ d p. ground arith) digits)))
    ]
  ]
]
