-- ===== src/Util/Gzip.antt =====
-- `gzip_compress` and `gzip_decompress` of src/util/util.cpp, and the handlers' `compress_body` and
-- `decompress_body` (src/agent/agent_handler.cpp, src/gateway/gateway_handler.cpp). zlib is a
-- parameter.
pub mod RoundTrip
use drlog_search.Base.{
  ℕ, zero, suc, ◌+◌, Bool, true, false, Option, none, some, [], ◌++◌, Bytes, codes, ◌==◌, ltb,
  if◌then◌else◌, length,
}
use drlog_search.Text.{find}

-- A call of `inflate` with room for so many bytes: an error, or the bytes that it wrote with Z_OK
-- or Z_STREAM_END.
pub data InflateResult (Stream : Type 0) : Type 0 where
  z_error : InflateResult Stream
  z_ok z_stream_end : Bytes → Stream → InflateResult Stream

-- `deflate` is `deflateInit2` and `deflate` with Z_FINISH on all the input, with room for so many
-- bytes: the output, or `none` where the first fails or the second does not answer Z_STREAM_END.
pub record Zlib : Type 1 where
  pub deflate : Bytes → ℕ → Option Bytes
  pub Stream : Type 0
  pub inflate_init : Bytes → Option Stream
  pub inflate : Stream → ℕ → InflateResult Stream

-- CHUNK_SIZE
abbrev pub chunk_size : ℕ
chunk_size = 65536

module _ (zlib : Zlib) where
  open zlib use {Stream}

  -- `none` is the answer false.
  unfoldable pub gzip_compress : Bytes → Option Bytes
  gzip_compress input = zlib.deflate input (length input)

  -- Behind a call of `inflate`: the loop goes on while the buffer was filled. The answer, and the
  -- output; `none` is out of fuel, of the model alone.
  unfoldable pub take_chunk :
      (Stream → Bytes → Option (Bool × Bytes))
      → Bytes
      → InflateResult Stream
      → Option (Bool × Bytes)
  take_chunk next output z_error = some (false, output)
  take_chunk next output (z_ok written s) =
      let later = next s (output ++ written) in
      if length written == chunk_size then later else some (false, output ++ written)
  take_chunk next output (z_stream_end written s) =
      let later = next s (output ++ written) in
      if length written == chunk_size then later else some (true, output ++ written)

  unfoldable pub inflate_loop : ℕ → Stream → Bytes → Option (Bool × Bytes)
  unfolding take_chunk
  inflate_loop zero s output = none
  inflate_loop (suc fuel) s output =
      take_chunk (inflate_loop fuel) output (zlib.inflate s chunk_size)

  unfoldable pub inflate_from : ℕ → Bytes → Option Stream → Option (Bool × Bytes)
  unfolding inflate_loop
  inflate_from fuel output none = some (false, output)
  inflate_from fuel output (some s) = inflate_loop fuel s output

  unfoldable pub gzip_decompress : ℕ → Bytes → Bytes → Option (Bool × Bytes)
  unfolding inflate_from
  gzip_decompress fuel input output = inflate_from fuel output (zlib.inflate_init input)

  -- What `compress_body` leaves in `output` and `content_encoding`; what a failed compression
  -- leaves in `output` is not read.
  unfoldable pub compressed : Bytes → Option Bytes → Bytes × Bytes
  compressed output none = (output, [])
  compressed output (some packed) = (packed, codes "gzip")

  unfoldable pub is_found : Option ℕ → Bool
  is_found none = false
  is_found (some i) = true

  unfoldable pub compress_body : Bytes → Bytes → Bytes → Bytes → Bytes × Bytes
  unfolding compressed gzip_compress is_found
  compress_body input accept_encoding output content_encoding =
      if ltb (length input) 1024
      then (output, [])
      else if is_found (find accept_encoding (codes "gzip"))
      then compressed output (gzip_compress input)
      else (output, content_encoding)

  unfoldable pub decompressed : Option (Bool × Bytes) → Option Bytes
  decompressed none = none
  decompressed (some (true, output)) = some output
  decompressed (some (false, output)) = some []

  -- What `decompress_body` leaves in `output`; `none` is out of fuel.
  unfoldable pub decompress_body : ℕ → Bytes → Bytes → Bytes → Option Bytes
  unfolding decompressed gzip_decompress is_found
  decompress_body fuel input content_encoding output =
      if is_found (find content_encoding (codes "gzip"))
      then decompressed (gzip_decompress fuel input output)
      else some output
