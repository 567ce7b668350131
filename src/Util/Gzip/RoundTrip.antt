-- ===== src/Util/Gzip/RoundTrip.antt =====
-- What one side compresses the other decompresses.
use drlog_search.Base.{
  ℕ, suc, ◌≤◌, true, false, some, [], ◌++◌, append_assoc, Bytes, codes, ◌==◌, ltb, ◌≡◌, ◌∙◌, ◌⊎◌,
  inl, inr, arith, length,
}
use drlog_search.Text.{find, starts_with}
use drlog_search.Util.Gzip.{
  z_ok, z_stream_end, Zlib, chunk_size, gzip_compress, take_chunk, inflate_loop, inflate_from,
  gzip_decompress, compressed, is_found, compress_body, decompressed, decompress_body,
}

module _ (zlib : Zlib) where
  -- The calls of `inflate` write the bytes, full buffers and then one that is not full, and the
  -- last one answers Z_STREAM_END.
  pub data InflatesTo : ℕ → zlib.Stream → Bytes → Type 0 where
    last :
        (s t : zlib.Stream) (bytes : Bytes)
        → zlib.inflate s chunk_size ≡ z_stream_end bytes t
        → (length bytes == chunk_size) ≡ false
        → InflatesTo 1 s bytes
    full :
        (calls : ℕ) (s t : zlib.Stream) (bytes later : Bytes)
        → (zlib.inflate s chunk_size ≡ z_ok bytes t)
          ⊎ (zlib.inflate s chunk_size ≡ z_stream_end bytes t)
        → (length bytes == chunk_size) ≡ true
        → InflatesTo calls t later
        → InflatesTo (suc calls) s (bytes ++ later)

  inflate_loop-InflatesTo :
      (calls : ℕ) (s : zlib.Stream) (bytes output : Bytes)
      → InflatesTo calls s bytes
      → inflate_loop zlib calls s output ≡ some (true, output ++ bytes)
  unfolding inflate_loop take_chunk
  inflate_loop-InflatesTo _ s _ output (last _ t bytes e l) = rw (e, l)
  inflate_loop-InflatesTo _ s _ output (full calls _ t bytes later (inl e) l r) =
      rw (e, l) (inflate_loop-InflatesTo calls t later (output ++ bytes) r ∙ rw append_assoc)
  inflate_loop-InflatesTo _ s _ output (full calls _ t bytes later (inr e) l r) =
      rw (e, l) (inflate_loop-InflatesTo calls t later (output ++ bytes) r ∙ rw append_assoc)

  -- zlib reads back what it writes: what `deflate` makes of an input inflates to that input.
  abbrev pub IsLossless : Type 0
  IsLossless =
      (input packed : Bytes) (room : ℕ)
      → zlib.deflate input room ≡ some packed
      → (calls : ℕ) × (s : zlib.Stream) × (zlib.inflate_init packed ≡ some s)
        × InflatesTo calls s input

  -- If zlib reads back what it writes: a body of 1024 bytes or more that the client takes as gzip
  -- and that zlib can pack into no more bytes than it has is sent as gzip, and with a number of
  -- calls of `inflate` the other side has the body again.
  pub decompress_body-compress_body :
      (input packed accept_encoding content_encoding : Bytes)
      → IsLossless
      → 1024 ≤ length input
      → is_found zlib (find accept_encoding (codes "gzip")) ≡ true
      → zlib.deflate input (length input) ≡ some packed
      → (compress_body zlib input accept_encoding [] content_encoding ≡ (packed, codes "gzip"))
        × (calls : ℕ) × (decompress_body zlib calls packed (codes "gzip") [] ≡ some input)
  unfolding compress_body gzip_compress compressed decompress_body gzip_decompress inflate_from
      decompressed find starts_with
  decompress_body-compress_body input packed accept content lossless l a d =
      let (calls, s, i, r) = lossless input packed (length input) d in
      let big : ltb (length input) 1024 ≡ false = ground arith in
      (rw (big, a, d), calls, rw (i, inflate_loop-InflatesTo calls s input [] r))
