-- ===== src/Util/Url.antt =====
-- `url_encode` and `url_decode` of src/util/util.cpp.
pub mod RoundTrip
use drlog_search.Base.{
  ℕ, ◌+◌, ◌-◌, ◌*◌, ◌/◌, ◌%◌, Bool, true, false, ◌&&◌, ◌||◌, Option, none, some, [], ◌∷◌, ◌++◌,
  Bytes, codes, ◌==◌, ltb, leb, if◌then◌else◌, ◌≡◌, refl,
}

-- `isalnum` in the C locale.
is_alnum : ℕ → Bool
is_alnum c = (leb b'0' c && leb c b'9') || (leb b'A' c && leb c b'Z') || (leb b'a' c && leb c b'z')

-- `isspace` in the C locale.
abbrev pub is_space : ℕ → Bool
is_space c = c == 32 || (leb 9 c && leb c 13)

-- The byte is written as it is.
unfoldable pub is_unreserved : ℕ → Bool
unfolding is_alnum
is_unreserved c = is_alnum c || c == b'-' || c == b'_' || c == b'.' || c == b'~'

-- One digit under `std::hex` and `std::uppercase`.
unfoldable pub upper_hex : ℕ → ℕ
upper_hex d = if ltb d 10 then b'0' + d else b'A' + (d - 10)

unfoldable pub url_encode : Bytes → Bytes
unfolding is_unreserved upper_hex
url_encode [] = []
url_encode (c ∷ s) =
    (if is_unreserved c then c ∷ [] else b'%' ∷ upper_hex (c / 16) ∷ upper_hex (c % 16) ∷ [])
    ++ url_encode s

-- The value of a hexadecimal digit of either case.
unfoldable pub hex_digit : ℕ → Option ℕ
hex_digit c =
    if leb b'0' c && leb c b'9'
    then some (c - b'0')
    else if leb b'A' c && leb c b'F'
    then some (c - b'A' + 10)
    else if leb b'a' c && leb c b'f'
    then some (c - b'a' + 10)
    else none

-- Digits behind a sign or a blank: the last place; a failed extraction stores 0.
last_digit : ℕ → ℕ
unfolding hex_digit
last_digit b = elim (hex_digit b) [ none ↦ 0 | some v ↦ v ]

-- `ss >> value` over the two characters `a` and `b`, then `static_cast<char>`. Where both are
-- blank nothing is stored in `value`, which has no initial value: `junk` stands for it.
unfoldable pub hex_pair : ℕ → ℕ → ℕ → ℕ
unfolding hex_digit last_digit
hex_pair junk a b =
    if is_space a
    then (if is_space b then junk % 256 else last_digit b)
    else if a == b'-'
    then (256 - last_digit b) % 256
    else if a == b'+'
    then last_digit b
    else elim (hex_digit a) [
      | none ↦ 0
      | some v ↦ elim (hex_digit b) [ none ↦ v | some w ↦ v * 16 + w ]
    ]

unfoldable pub url_decode : ℕ → Bytes → Bytes
unfolding hex_pair
url_decode junk [] = []
url_decode junk (c ∷ []) = c ∷ []
url_decode junk (c ∷ a ∷ []) = c ∷ a ∷ []
url_decode junk (c ∷ a ∷ b ∷ s) = elim (c == b'%') [
  | true ↦ hex_pair junk a b ∷ url_decode junk s
  | false ↦ c ∷ url_decode junk (a ∷ b ∷ s)
]
