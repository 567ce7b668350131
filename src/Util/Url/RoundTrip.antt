-- ===== src/Util/Url/RoundTrip.antt =====
-- Decoding undoes encoding, and what encoding writes is safe in a query string.
use drlog_search.Base.{
  ℕ, ◌/◌, ◌%◌, ◌≤◌, ◌<◌, true, some, [], ◌∷◌, Bytes, ◌≡◌, refl, ap, ◌∙◌, ◌⊎◌, inl, inr, ◌≢◌, arith,
  Bool-cases, All,
}
use drlog_search.Util.Url.{is_unreserved, upper_hex, url_encode, hex_digit, hex_pair, url_decode}

hex_digit-upper_hex : (d : ℕ) → d < 16 → hex_digit (upper_hex d) ≡ some d
unfolding hex_digit upper_hex
hex_digit-upper_hex d h = ground arith

hex_pair-upper_hex :
    (junk c : ℕ) → c < 256 → hex_pair junk (upper_hex (c / 16)) (upper_hex (c % 16)) ≡ c
unfolding hex_pair upper_hex
hex_pair-upper_hex junk c h = ground arith

url_decode_plain :
    (junk c : ℕ) (s : Bytes) → c ≢ b'%' → url_decode junk (c ∷ s) ≡ c ∷ url_decode junk s
unfolding url_decode
url_decode_plain junk c [] h = refl
url_decode_plain junk c (a ∷ []) h = refl
url_decode_plain junk c (a ∷ b ∷ s) h = ground arith

url_decode_escape :
    (junk h l : ℕ) (s : Bytes)
    → url_decode junk (b'%' ∷ h ∷ l ∷ s) ≡ hex_pair junk h l ∷ url_decode junk s
unfolding url_decode
url_decode_escape junk h l s = refl

unreserved_ne : (c : ℕ) → is_unreserved c ≡ true → c ≢ b'%'
unfolding is_unreserved
unreserved_ne c h = ground arith

-- Decoding an encoded text gives the text back, whatever bytes below 256 it holds and whatever an
-- uninitialised value is.
pub url_decode-url_encode :
    (junk : ℕ) (s : Bytes) → All (λ c. c < 256) s → url_decode junk (url_encode s) ≡ s
unfolding url_encode
url_decode-url_encode junk [] h = unfold url_decode in refl
url_decode-url_encode junk (c ∷ s) h = elim (Bool-cases (is_unreserved c)) [
  | inl t ↦ rw t (
      url_decode_plain junk c _ (unreserved_ne c t) ∙ ap (◌∷◌ c) (url_decode-url_encode junk s h.1))
  | inr f ↦ rw f (
      url_decode_escape junk _ _ (url_encode s)
      ∙ ground (arith, hex_pair-upper_hex junk c h.0, url_decode-url_encode junk s h.1))
]

abbrev IsUpperHex : ℕ → Type 0
IsUpperHex d = ((b'0' ≤ d) × (d ≤ b'9')) ⊎ ((b'A' ≤ d) × (d ≤ b'F'))

-- RFC 3986: unreserved characters, and percent-encoded bytes with two upper-case digits.
pub data IsPercentEncoded : Bytes → Type 0 where
  done : IsPercentEncoded []
  plain :
      {c : ℕ} {s : Bytes} → is_unreserved c ≡ true → IsPercentEncoded s → IsPercentEncoded (c ∷ s)
  escape :
      {h l : ℕ} {s : Bytes}
      → IsUpperHex h
      → IsUpperHex l
      → IsPercentEncoded s
      → IsPercentEncoded (b'%' ∷ h ∷ l ∷ s)

upper_hex-IsUpperHex : (d : ℕ) → d < 16 → IsUpperHex (upper_hex d)
unfolding upper_hex
upper_hex-IsUpperHex d h = ground arith

-- Whatever bytes below 256 a text holds, its encoding is percent-encoded text of RFC 3986.
pub url_encode-IsPercentEncoded :
    (s : Bytes) → All (λ c. c < 256) s → IsPercentEncoded (url_encode s)
unfolding url_encode
url_encode-IsPercentEncoded [] h = done
url_encode-IsPercentEncoded (c ∷ s) h = elim (Bool-cases (is_unreserved c)) [
  | inl t ↦ rw t (plain t (url_encode-IsPercentEncoded s h.1))
  | inr f ↦ rw f (
      escape (upper_hex-IsUpperHex (c / 16) (omega (arith, h.0)))
        (upper_hex-IsUpperHex (c % 16) (omega arith)) (url_encode-IsPercentEncoded s h.1))
]
