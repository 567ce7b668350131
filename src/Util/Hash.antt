-- ===== src/Util/Hash.antt =====
-- `MurMurHash64` and `etag_from_size_mtime` of src/util/util.cpp, for texts of less than 2 ^ 31
-- bytes.
pub mod Bounds
use drlog_search.Base.{
  ℕ, zero, suc, ◌+◌, ◌-◌, ◌*◌, ◌/◌, ◌%◌, ◌^◌, [], ◌∷◌, ◌++◌, Bytes, ltb, if◌then◌else◌, take, drop,
  length,
}

-- The bits of `a ^ b`, `width` of them.
unfoldable pub xor : ℕ → ℕ → ℕ → ℕ
xor zero a b = 0
xor (suc width) a b = (a % 2 + b % 2) % 2 + 2 * xor width (a / 2) (b / 2)

-- Bytes behind each other in memory, as a number, and back.
unfoldable pub little_endian : Bytes → ℕ
little_endian [] = 0
little_endian (b ∷ bs) = b + 256 * little_endian bs

unfoldable pub to_bytes : ℕ → ℕ → Bytes
to_bytes zero n = []
to_bytes (suc count) n = n % 256 ∷ to_bytes count (n / 256)

-- (0xc6a4a793 << 32) + 0x5bd1e995
abbrev pub mul : ℕ
mul = 14313749767032793493

abbrev pub multiply : ℕ → ℕ
multiply n = n * mul % 2 ^ 64

-- `(block ^ (block >> 47)) * mul`
unfoldable pub shift_multiply : ℕ → ℕ
shift_multiply block = multiply (xor 64 block (block / 2 ^ 47))

-- The loop over the aligned blocks: the hash, and the bytes behind the last block.
unfoldable pub hash_blocks : ℕ → Bytes → ℕ → ℕ × Bytes
hash_blocks zero s hash = (hash, s)
hash_blocks (suc blocks) s hash =
    let block = shift_multiply (multiply (little_endian (take 8 s))) in
    hash_blocks blocks (drop 8 s) (multiply (xor 64 hash block))

unfoldable pub hash_rest : ℕ × Bytes → ℕ
hash_rest (hash, []) = hash
hash_rest (hash, b ∷ bs) = multiply (xor 64 hash (little_endian (b ∷ bs)))

unfoldable pub murmur_hash64 : Bytes → ℕ → ℕ
unfolding hash_blocks hash_rest shift_multiply xor little_endian
murmur_hash64 s seed =
    let hash = xor 64 seed (multiply (length s)) in
    let mixed = shift_multiply (hash_rest (hash_blocks (length s / 8) s hash)) in
    xor 64 mixed (mixed / 2 ^ 47)

abbrev pub default_seed : ℕ
default_seed = 3339675888

unfoldable pub lower_hex : ℕ → ℕ
lower_hex d = if ltb d 10 then b'0' + d else b'a' + (d - 10)

-- `std::hex` with `setw(16)` and `setfill('0')`: the digits from the highest.
unfoldable pub hex_digits : ℕ → ℕ → Bytes
hex_digits zero n = []
hex_digits (suc width) n = hex_digits width (n / 16) ++ lower_hex (n % 16) ∷ []

unfoldable pub etag_from_size_mtime : ℕ → ℕ → Bytes
unfolding murmur_hash64 hex_digits to_bytes
etag_from_size_mtime size mtime =
    hex_digits 16 (murmur_hash64 (to_bytes 8 size ++ to_bytes 8 mtime) default_seed)
