-- ===== src/Table/Entries.antt =====
-- The entries of a `std::map` and what is found in it.
use drlog_search.Base.{
  some, List, [], ◌∷◌, Bytes, ◌≡◌, refl, inl, inr, arith, Bool-cases, eqb, eqb_iff, eqb_refl, All,
}
use drlog_search.Table.{lookup, Sorted, lookup-Above}

module _ {ℓ κ} {A : Type ℓ} (P : A → Type κ) where
  -- What holds of all that is found holds of all entries.
  pub Sorted-All :
      (entries : List (Bytes × A))
      → Sorted entries
      → ((key : Bytes) (value : A) → lookup key entries ≡ some value → P value)
      → All (λ entry. P entry.1) entries
  unfolding lookup
  Sorted-All [] s h = tt
  Sorted-All ((k, v) ∷ entries) s h = (
    h k v (rw (eqb_refl k) refl),
    Sorted-All entries s.1 (λ key value e. elim (Bool-cases (eqb key k)) [
      | inl y ↦
          let is = (eqb_iff key k).0 y in
          let gone = lookup-Above k entries s.0 in
          let e' : lookup k entries ≡ some value = rw is at e in absurd (ground (arith, gone, e'))
      | inr n ↦ h key value (rw n e)
    ]),
  )
