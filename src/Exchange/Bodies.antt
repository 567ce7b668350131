-- ===== src/Exchange/Bodies.antt =====
-- The body of an agent's answer reaches the gateway (`compress_body` of
-- src/agent/agent_handler.cpp, `decompress_body` of src/gateway/gateway_handler.cpp).
use drlog_search.Base.{
  ℕ, Bool, true, false, Option, none, some, [], Bytes, codes, ltb, if◌then◌else◌, ◌≡◌, refl, inl,
  inr, arith, Bool-cases, length, eqb, eqb_iff,
}
use drlog_search.Text.{find}
use drlog_search.Util.Gzip.{Zlib, gzip_compress, compressed, is_found, compress_body}
use drlog_search.Util.Gzip.RoundTrip.{IsLossless, decompress_body-compress_body}
use drlog_search.Http.{returned, packed}
use drlog_search.Gateway.Dispatch.{unpacked, body_of}
use drlog_search.Exchange.{header}

module _ (zlib : Zlib) (lossless : IsLossless zlib) where
  -- With calls of `inflate` enough.
  unfoldable pub Arrives : Bytes → Bytes × Bytes → Type 0
  Arrives body (sent, content_encoding) =
      (calls : ℕ) × (body_of zlib calls sent (header content_encoding) ≡ returned body)

  unchanged : (body : Bytes) → Arrives body (body, [])
  unfolding Arrives body_of
  unchanged body = (0, refl)

  chosen :
      (body output content_encoding : Bytes)
      → (content_encoding ≡ codes "gzip" → Arrives body (output, content_encoding))
      → Arrives body
          (if eqb content_encoding (codes "gzip") then (output, content_encoding) else (body, []))
  chosen body output content_encoding h = elim (Bool-cases (eqb content_encoding (codes "gzip"))) [
    | inl y ↦ rw y (h ((eqb_iff _ _).0 y))
    | inr n ↦ rw n (unchanged body)
  ]

  deflated :
      (body accept : Bytes) (o : Option Bytes)
      → ltb (length body) 1024 ≡ false
      → is_found zlib (find accept (codes "gzip")) ≡ true
      → zlib.deflate body (length body) ≡ o
      → (compressed zlib [] o).1 ≡ codes "gzip"
      → Arrives body (compressed zlib [] o)
  unfolding compressed Arrives body_of unpacked
  deflated body accept none n f e h = absurd (let z : ◌≡◌ {A = Bytes} [] (codes "gzip") = h in cc)
  deflated body accept (some p) n f e h =
      let (c, calls, d) =
        decompress_body-compress_body zlib body p accept [] lossless (ground (arith, n)) f e in
      (calls, rw d refl)

  -- Whatever the client accepts, it gets the body of an answer back, with calls of `inflate`
  -- enough.
  pub packed-Arrives :
      (body : Bytes) (accept_encoding : Option Bytes)
      → Arrives body (packed zlib body accept_encoding)
  unfolding packed compress_body gzip_compress
  packed-Arrives body none = unchanged body
  packed-Arrives body (some accept) = elim (Bool-cases (ltb (length body) 1024)) [
    | inl y ↦ rw y (chosen body [] [] (λ e. absurd cc))
    | inr n ↦ rw n (elim (Bool-cases (is_found zlib (find accept (codes "gzip")))) [
      | inl f ↦
          rw f (chosen body _ _ (deflated body accept (zlib.deflate body (length body)) n f refl))
      | inr f ↦ rw f (chosen body [] [] (λ e. absurd cc))
    ])
  ]

is_gzip : Bytes → Bool
is_gzip content_encoding = eqb content_encoding (codes "gzip")

none_is_no_gzip : eqb [] (codes "gzip") ≡ false
none_is_no_gzip = elim (Bool-cases (eqb [] (codes "gzip"))) [
  | inl y ↦ absurd (let e = (eqb_iff [] (codes "gzip")).0 y in cc)
  | inr n ↦ n
]

-- The header is gzip or is not set.
pub packed-encoding :
    (zlib : Zlib) (body : Bytes) (accept_encoding : Option Bytes)
    → (if eqb (packed zlib body accept_encoding).1 (codes "gzip")
        then (packed zlib body accept_encoding).1
        else [])
      ≡ (packed zlib body accept_encoding).1
unfolding packed
packed-encoding zlib body none = rw none_is_no_gzip refl
packed-encoding zlib body (some accept) =
    let e = (compress_body zlib body accept [] []).1 in
    elim (Bool-cases (eqb e (codes "gzip"))) [
      | inl y ↦ rw (y, y) refl
      | inr n ↦ rw (n, none_is_no_gzip) refl
    ]
