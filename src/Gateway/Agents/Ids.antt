-- ===== src/Gateway/Agents/Ids.antt =====
-- The ids of agents (src/gateway/agent_manager.cpp).
use drlog_search.Base.{
  ℕ, zero, suc, ◌+◌, ◌-◌, ◌*◌, ◌/◌, ◌^◌, ◌<◌, [], ◌∷◌, ◌++◌, Bytes, ltb, ◌≡◌, refl, sym, ap, ◌∙◌,
  inl, inr, ◌↔◌, arith, ltb→lt, Bool-cases,
}
use drlog_search.Util.Hash.{murmur_hash64}
use drlog_search.Util.Hash.Bounds.{murmur_hash64_bound}
use drlog_search.Gateway.Agents.{id_of, to_string, decimal}

abbrev decimal_value : ℕ → Bytes → ℕ
decimal_value n [] = n
decimal_value n (d ∷ ds) = decimal_value (10 * n + (d - b'0')) ds

decimal_value-concat :
    (n : ℕ) (ds : Bytes) (d : ℕ)
    → decimal_value n (ds ++ d ∷ []) ≡ 10 * decimal_value n ds + (d - b'0')
decimal_value-concat n [] d = refl
decimal_value-concat n (c ∷ ds) d = decimal_value-concat (10 * n + (c - b'0')) ds d

decimal_lem : (digits n : ℕ) → n < 10 ^ digits → decimal_value 0 (decimal digits n) ≡ n
unfolding decimal
decimal_lem zero n h = omega arith
decimal_lem (suc digits) n h =
    let ih = decimal_lem digits (n / 10) (omega arith) in
    elim (Bool-cases (ltb n 10)) [
      | inl y ↦ rw y (omega (arith, ltb→lt _ _ y))
      | inr g ↦ rw (g, decimal_value-concat, ih) (omega arith)
    ]

to_string_value : (n : ℕ) → n < 2 ^ 64 → decimal_value 0 (to_string n) ≡ n
unfolding to_string
to_string_value n h = decimal_lem 20 n (omega arith)

-- Two addresses have one id exactly when they have one hash.
pub id_of_iff : (a b : Bytes) → (id_of a ≡ id_of b) ↔ (murmur_hash64 a 0 ≡ murmur_hash64 b 0)
unfolding id_of
id_of_iff a b = (
  λ e.
      sym (to_string_value _ (murmur_hash64_bound a 0))
      ∙ ap (decimal_value 0) e
      ∙ to_string_value _ (murmur_hash64_bound b 0),
  λ e. ap to_string e,
)
