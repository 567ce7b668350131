-- ===== src/Util/Hash/Bounds.antt =====
-- Hashes are 64-bit numbers, and tags 16 digits that tell the hash.
use drlog_search.Base.{
  ℕ, zero, suc, ◌+◌, ◌-◌, ◌*◌, ◌/◌, ◌%◌, ◌^◌, ◌≤◌, ◌<◌, [], ◌∷◌, ◌++◌, Bytes, ltb, if◌then◌else◌,
  ◌≡◌, refl, ◌∙◌, ◌⊎◌, arith, length, length-append, All, All-append,
}
use drlog_search.Util.Hash.{
  xor, to_bytes, murmur_hash64, lower_hex, hex_digits, etag_from_size_mtime, default_seed,
}

pub xor_bound : (width a b : ℕ) → xor width a b < 2 ^ width
unfolding xor
xor_bound zero a b = omega arith
xor_bound (suc width) a b = let h = xor_bound width (a / 2) (b / 2) in omega arith

-- The hash of every text is a 64-bit number.
pub murmur_hash64_bound : (s : Bytes) (seed : ℕ) → murmur_hash64 s seed < 2 ^ 64
unfolding murmur_hash64
murmur_hash64_bound s seed = xor_bound 64 _ _

abbrev pub IsLowerHex : ℕ → Type 0
IsLowerHex d = ((b'0' ≤ d) × (d ≤ b'9')) ⊎ ((b'a' ≤ d) × (d ≤ b'f'))

-- The number that hexadecimal digits write.
abbrev pub digit_value : ℕ → ℕ
digit_value d = if ltb d b'a' then d - b'0' else d - b'a' + 10

abbrev pub value_from : ℕ → Bytes → ℕ
value_from n [] = n
value_from n (d ∷ ds) = value_from (16 * n + digit_value d) ds

value_from-concat :
    (n : ℕ) (ds : Bytes) (d : ℕ)
    → value_from n (ds ++ d ∷ []) ≡ 16 * value_from n ds + digit_value d
value_from-concat n [] d = refl
value_from-concat n (c ∷ ds) d = value_from-concat (16 * n + digit_value c) ds d

lower_hex-digit : (d : ℕ) → d < 16 → IsLowerHex (lower_hex d) × (digit_value (lower_hex d) ≡ d)
unfolding lower_hex
lower_hex-digit d h = ground arith

hex_digits_lem :
    (width n : ℕ)
    → n < 16 ^ width
    → (length (hex_digits width n) ≡ width)
      × All IsLowerHex (hex_digits width n)
      × (value_from 0 (hex_digits width n) ≡ n)
unfolding hex_digits
hex_digits_lem zero n h = (refl, tt, omega arith)
hex_digits_lem (suc width) n h =
    let (l, a, v) = hex_digits_lem width (n / 16) (omega arith) in
    let (d, w) = lower_hex-digit (n % 16) (omega arith) in
    (
      omega (arith, length-append (hex_digits width (n / 16)) (lower_hex (n % 16) ∷ [])),
      All-append IsLowerHex (hex_digits width (n / 16)) _ a (d, tt),
      value_from-concat 0 (hex_digits width (n / 16)) (lower_hex (n % 16))
          ∙ rw (v, w) (omega arith),
    )

-- A tag is 16 lower-case hexadecimal digits, and they write the hash of the size and the time of
-- change, eight bytes each.
pub etag_from_size_mtime_lem :
    (size mtime : ℕ)
    → (length (etag_from_size_mtime size mtime) ≡ 16)
      × All IsLowerHex (etag_from_size_mtime size mtime)
      × (value_from 0 (etag_from_size_mtime size mtime)
          ≡ murmur_hash64 (to_bytes 8 size ++ to_bytes 8 mtime) default_seed)
unfolding etag_from_size_mtime
etag_from_size_mtime_lem size mtime =
    hex_digits_lem 16 (murmur_hash64 (to_bytes 8 size ++ to_bytes 8 mtime) default_seed)
      (murmur_hash64_bound (to_bytes 8 size ++ to_bytes 8 mtime) default_seed)
