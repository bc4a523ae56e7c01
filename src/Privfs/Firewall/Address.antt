-- ===== src/Privfs/Firewall/Address.antt =====
-- What firewall.go uses of package `net`: `ParseIP`, `ParseCIDR` and `To4`. An address is its 4 or 16
-- bytes. A text with a zone is refused, as both functions do.
use maid_cafe.Base.{
  ltb, leb, ◌==◌, if◌then◌else◌, length, take, drop, ℕ, zero, suc, ◌+◌, ◌-◌, ◌*◌, ◌/◌, ◌%◌, Bool,
  true, false, not, ◌&&◌, ◌||◌, Option, none, some, List, [], ◌∷◌, ◌++◌,
}
use maid_cafe.Base.Text.{Bytes, codes, str_eq, all_bytes, cut, split, strip_prefix}
use maid_cafe.Privfs.Names.{is_digit}

unfoldable pub decimal : Bytes → ℕ → ℕ
decimal [] n = n
decimal (c ∷ s) n = decimal s (n * 10 + (c - b'0'))

-- an octet: one to three digits, no leading zero, at most 255
unfoldable pub octet : Bytes → Option ℕ
unfolding decimal all_bytes
octet [] = none
octet (c ∷ s) =
    if all_bytes is_digit (c ∷ s)
      && (not (c == b'0' && not (str_eq s [])) && not (ltb 255 (decimal (c ∷ s) 0)))
    then some (decimal (c ∷ s) 0)
    else none

-- four octets with dots between
unfoldable pub parse_four : Bytes → Option (List ℕ)
unfolding octet
parse_four s = elim (split b'.' s) [
  | a ∷ b ∷ c ∷ d ∷ [] ↦ elim (octet a) [
    | none ↦ none
    | some x ↦ elim (octet b) [
      | none ↦ none
      | some y ↦ elim (octet c) [
        | none ↦ none
        | some z ↦ elim (octet d) [ none ↦ none | some w ↦ some (x ∷ y ∷ z ∷ w ∷ []) ]
      ]
    ]
  ]
  | _ ↦ none
]

-- the value of a hexadecimal digit
unfoldable pub hex_value : ℕ → Option ℕ
hex_value c =
    if leb b'0' c && leb c b'9'
    then some (c - b'0')
    else if leb b'a' c && leb c b'f'
    then some (c - b'a' + 10)
    else if leb b'A' c && leb c b'F'
    then some (c - b'A' + 10)
    else none

-- The hexadecimal digits at the front, at most as many as the first argument says: their value and
-- what follows.
unfoldable pub hex_group : ℕ → ℕ → Bytes → Option (ℕ × Bytes)
unfolding hex_value
hex_group room acc [] = some (acc, [])
hex_group zero acc (c ∷ s) = elim (hex_value c) [ none ↦ some (acc, c ∷ s) | some v ↦ none ]
hex_group (suc room) acc (c ∷ s) = elim (hex_value c) [
  | none ↦ some (acc, c ∷ s)
  | some v ↦ hex_group room (acc * 16 + v) s
]

abbrev pub two_bytes : ℕ → List ℕ
two_bytes v = (v / 256) ∷ (v % 256) ∷ []

unfoldable pub starts_hex : Bytes → Bool
unfolding hex_value
starts_hex [] = false
starts_hex (c ∷ s) = elim (hex_value c) [ none ↦ false | some v ↦ true ]

-- The groups of an IPv6 address, at most as many as the first argument says: the bytes read, where
-- the `::` stands, and what follows. A group followed by a dot begins four octets that end the text.
unfoldable pub groups : ℕ → List ℕ → Option ℕ → Bytes → Option (List ℕ × Option ℕ × Bytes)
unfolding starts_hex hex_group parse_four
groups zero bytes gap s = some (bytes, gap, s)
groups (suc room) bytes gap s = if not (starts_hex s) then none else elim (hex_group 4 0 s) [
  | none ↦ none
  | some (v, []) ↦ some (bytes ++ two_bytes v, gap, [])
  | some (v, c ∷ more) ↦
      if c == b'.'
      then (if ltb 12 (length bytes)
            || (elim gap [ none ↦ true | some k ↦ false ] && not (length bytes == 12))
          then none
          else elim (parse_four s) [ none ↦ none | some q ↦ some (bytes ++ q, gap, []) ])
      else if not (c == b':')
      then none
      else elim more [
        | [] ↦ none
        | d ∷ after ↦
            if not (d == b':')
            then groups room (bytes ++ two_bytes v) gap (d ∷ after)
            else elim gap [
              | some k ↦ none
              | none ↦ elim after [
                | [] ↦ some (bytes ++ two_bytes v, some (length bytes + 2), [])
                | x ∷ xs ↦ groups room (bytes ++ two_bytes v) (some (length bytes + 2)) (x ∷ xs)
              ]
            ]
      ]
]

unfoldable pub zeros : ℕ → List ℕ
zeros zero = []
zeros (suc n) = 0 ∷ zeros n

-- the address of the groups: the `::` stands for one zero byte or more
unfoldable pub fill : Option (List ℕ × Option ℕ × Bytes) → Option (List ℕ)
unfolding zeros
fill none = none
fill (some (bytes, gap, c ∷ s)) = none
fill (some (bytes, none, [])) = if length bytes == 16 then some bytes else none
fill (some (bytes, some k, [])) =
    if leb 16 (length bytes)
    then none
    else some (take k bytes ++ (zeros (16 - length bytes) ++ drop k bytes))

unfoldable pub parse_sixteen : Bytes → Option (List ℕ)
unfolding groups fill
parse_sixteen s = elim (strip_prefix s (codes "::")) [
  | none ↦ fill (groups 8 [] none s)
  | some [] ↦ some (zeros 16)
  | some (c ∷ rest) ↦ fill (groups 8 [] (some 0) (c ∷ rest))
]

-- which family the text is read as: the first dot or colon decides
unfoldable pub first_separator : Bytes → Option ℕ
first_separator [] = none
first_separator (c ∷ s) =
    let rest = first_separator s in if c == b'.' || (c == b':' || c == b'%') then some c else rest

-- `netip.ParseAddr`, for a text without a zone
unfoldable pub parse_addr : Bytes → Option (List ℕ)
unfolding first_separator parse_four parse_sixteen
parse_addr s = elim (first_separator s) [
  | none ↦ none
  | some c ↦ if c == b'.' then parse_four s else if c == b':' then parse_sixteen s else none
]

-- `net.ParseIP(s) != nil`
unfoldable pub is_ip : Bytes → Bool
unfolding parse_addr
is_ip s = elim (parse_addr s) [ none ↦ false | some a ↦ true ]

-- whether an address is an IPv4 address or one written as IPv6: `To4() != nil`
unfoldable pub to_four : List ℕ → Bool
to_four a =
    (length a == 4) || str_eq (take 12 a) (0 ∷ 0 ∷ 0 ∷ 0 ∷ 0 ∷ 0 ∷ 0 ∷ 0 ∷ 0 ∷ 0 ∷ 255 ∷ 255 ∷ [])

-- `net.ParseCIDR`: the address and the length of the prefix
unfoldable pub parse_cidr : Bytes → Option (List ℕ × ℕ)
unfolding parse_addr
parse_cidr s = elim (cut b'/' s) [
  | none ↦ none
  | some (text, mask) ↦ elim (parse_addr text) [
    | none ↦ none
    | some a ↦
        if str_eq mask [] || (not (all_bytes is_digit mask) || ltb (8 * length a) (decimal mask 0))
        then none
        else some (a, decimal mask 0)
  ]
]

unfoldable pub is_cidr : Bytes → Bool
unfolding parse_cidr
is_cidr s = elim (parse_cidr s) [ none ↦ false | some b ↦ true ]

-- whether the block's own address, the bits behind the prefix set to 0, is an IPv4 address: an
-- address of 16 bytes keeps the mark of one only under a prefix of 96 bits or more
unfoldable pub block_to_four : List ℕ × ℕ → Bool
unfolding to_four
block_to_four (a, n) = (length a == 4) || (to_four a && leb 96 n)
