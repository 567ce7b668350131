-- ===== src/Tests/Util.antt =====
-- src/util/util.cpp on small texts.
use drlog_search.Base.{[], ◌∷◌, codes, ◌≡◌, refl, ◌≢◌, arith, All}
use drlog_search.Base.{
  ℕ, Bytes, zero, suc, Bool-cases, inl, inr, ltb, Option, some, none, if◌then◌else◌,
}
use drlog_search.Text.{find, starts_with}
use drlog_search.Util.Gzip.{
  Zlib, z_error, z_stream_end, chunk_size, is_found, compress_body, decompress_body,
}
use drlog_search.Util.Gzip.RoundTrip.{IsLossless, InflatesTo, decompress_body-compress_body}
use drlog_search.Util.Hash.{etag_from_size_mtime, murmur_hash64, to_bytes, default_seed}
use drlog_search.Util.Hash.Bounds.{IsLowerHex, value_from, etag_from_size_mtime_lem}
use drlog_search.Base.{length, ◌++◌}
use drlog_search.Util.Url.{url_encode, url_decode}
use drlog_search.Util.Url.RoundTrip.{url_decode-url_encode}
use drlog_search.Util.Split.{split, split_sound, terminated, SameUpToEnd}

url_decode-url_encode_example : url_decode 7 (url_encode (codes "a b%")) ≡ codes "a b%"
url_decode-url_encode_example =
    url_decode-url_encode 7 (codes "a b%")
      (omega arith, (omega arith, (omega arith, (omega arith, tt))))

split_sound_example :
    SameUpToEnd b',' (terminated b',' (split (codes "a,,b") b',')) (codes "a,,b")
    × All (All (λ c. c ≢ b',')) (split (codes "a,,b") b',')
split_sound_example = split_sound (codes "a,,b") b','

splits_with_empty : split (codes "a,,b") b',' ≡ codes "a" ∷ [] ∷ codes "b" ∷ []
unfolding split
splits_with_empty = refl

etag_from_size_mtime_lem_example :
    (length (etag_from_size_mtime 5 9) ≡ 16)
    × All IsLowerHex (etag_from_size_mtime 5 9)
    × (value_from 0 (etag_from_size_mtime 5 9)
        ≡ murmur_hash64 (to_bytes 8 5 ++ to_bytes 8 9) default_seed)
etag_from_size_mtime_lem_example = etag_from_size_mtime_lem 5 9

decodes_lower_and_short : url_decode 0 (codes "a%2f%4zb%4") ≡ codes "a/\u{4}b%4"
unfolding url_decode
decodes_lower_and_short = refl

-- A compression that leaves short texts as they are, and does not pack others.
abbrev pub stored : Zlib
stored = record {
  deflate = λ input room. if ltb (length input) chunk_size then some input else none;
  Stream = Bytes;
  inflate_init = λ packed. some packed;
  inflate = λ s room. if ltb (length s) chunk_size then z_stream_end s [] else z_error;
}

pub stored-IsLossless : IsLossless stored
stored-IsLossless input packed room h = elim (Bool-cases (ltb (length input) chunk_size)) [
  | inl y ↦
      let same : ◌≡◌ {A = Option Bytes} (some input) (some packed) = rw y at h in
      let is : input ≡ packed = cc in
      rw (← is) (1, input, refl, InflatesTo.last input [] input (rw y) (ground arith))
  | inr n ↦
      absurd
        (let same : ◌≡◌ {A = Option Bytes} none (some packed) = rw n at h in ground (arith, same))
]

abbrev repeat : ℕ → Bytes
repeat zero = []
repeat (suc n) = b'a' ∷ repeat n

decompress_body-compress_body_example :
    (compress_body stored (repeat 1024) (codes "gzip, br") [] [] ≡ (repeat 1024, codes "gzip"))
    × (calls : ℕ) × (decompress_body stored calls (repeat 1024) (codes "gzip") []
        ≡ some (repeat 1024))
unfolding find starts_with is_found
decompress_body-compress_body_example =
    decompress_body-compress_body stored (repeat 1024) (repeat 1024) (codes "gzip, br") []
      stored-IsLossless (omega arith) refl refl
