-- ===== src/Searchers/Boolean/Failure.antt =====
-- The exceptions that `boolean_searcher::build_pattern` throws, by their messages.
use drlog_search.Base.{◌≡◌, refl, ◌⊎◌, inl, inr}

pub data Failure : Type 0 where
  unmatched_right_quote adjacent_quoted_words adjacent_unquoted_words : Failure
  operand_missing mismatch_after_not mismatch mixed_operators extra_content : Failure
  -- of the model alone
  out_of_fuel : Failure

pub data Result {ℓ} (A : Type ℓ) : Type ℓ where
  ok : A → Result A
  throw : Failure → Result A

infixl 5 ◌>>=◌
abbrev pub ◌>>=◌ {ℓ κ} : {A : Type ℓ} {B : Type κ} → Result A → (A → Result B) → Result B
ok a >>= f = f a
throw e >>= f = throw e

pub Result-cases {ℓ} :
    {A : Type ℓ} (r : Result A) → ((a : A) × (r ≡ ok a)) ⊎ ((e : Failure) × (r ≡ throw e))
Result-cases (ok a) = inl (a, refl)
Result-cases (throw e) = inr (e, refl)
