-- ===== src/Table.antt =====
-- `std::map` from texts: a list of entries in the order of their keys.
pub mod Order
pub mod Entries
use drlog_search.Base.{
  Bool, true, false, Option, none, some, List, [], ◌∷◌, Bytes, ltb, if◌then◌else◌, ◌≡◌, refl, sym,
  inl, inr, ◌≢◌, arith, Bool-cases, eqb, eqb_iff, eqb_refl,
}

-- The order of `std::string`.
unfoldable pub less : Bytes → Bytes → Bool
less [] [] = false
less [] (y ∷ ys) = true
less (x ∷ xs) [] = false
less (x ∷ xs) (y ∷ ys) =
    let rest = less xs ys in if ltb x y then true else if ltb y x then false else rest

pub less_irrefl : (a : Bytes) → less a a ≡ false
unfolding less
less_irrefl [] = refl
less_irrefl (x ∷ a) = ground (arith, less_irrefl a)

pub less_trans : (a b c : Bytes) → less a b ≡ true → less b c ≡ true → less a c ≡ true
unfolding less
less_trans [] [] c h k = cc
less_trans [] (y ∷ b) [] h k = cc
less_trans [] (y ∷ b) (z ∷ c) h k = refl
less_trans (x ∷ a) [] c h k = cc
less_trans (x ∷ a) (y ∷ b) [] h k = cc
less_trans (x ∷ a) (y ∷ b) (z ∷ c) h k = ground (arith, less_trans a b c)

pub less_antisym : (a b : Bytes) → less a b ≡ false → less b a ≡ false → a ≡ b
unfolding less
less_antisym [] [] h k = refl
less_antisym [] (y ∷ b) h k = cc
less_antisym (x ∷ a) [] h k = cc
less_antisym (x ∷ a) (y ∷ b) h k = ground (arith, less_antisym a b)

pub less_total : (a b : Bytes) → eqb a b ≡ false → less a b ≡ false → less b a ≡ true
less_total a b n h = elim (Bool-cases (less b a)) [
  | inl y ↦ y
  | inr g ↦ absurd (ground (arith, n, (eqb_iff a b).1 (less_antisym a b h g)))
]

pub less-ne : (a b : Bytes) → less a b ≡ true → (eqb a b ≡ false) × (eqb b a ≡ false)
less-ne a b h =
    let apart : a ≢ b =
      λ e. (let same : less b b ≡ true = rw e at h in ground (arith, same, less_irrefl b)) in
    (
      elim (Bool-cases (eqb a b)) [ inl y ↦ absurd (apart ((eqb_iff a b).0 y)) | inr n ↦ n ],
      elim (Bool-cases (eqb b a)) [ inl y ↦ absurd (apart (sym ((eqb_iff b a).0 y))) | inr n ↦ n ],
    )

module _ {ℓ} {A : Type ℓ} where
  -- `find`, and `operator[]` that assigns.
  unfoldable pub lookup : Bytes → List (Bytes × A) → Option A
  lookup key [] = none
  lookup key ((k, v) ∷ entries) =
      let later = lookup key entries in if eqb key k then some v else later

  unfoldable pub insert : Bytes → A → List (Bytes × A) → List (Bytes × A)
  insert key value [] = (key, value) ∷ []
  insert key value ((k, v) ∷ entries) =
      let later = insert key value entries in
      if eqb key k
      then (key, value) ∷ entries
      else if less key k
      then (key, value) ∷ (k, v) ∷ entries
      else (k, v) ∷ later

  unfoldable pub erase : Bytes → List (Bytes × A) → List (Bytes × A)
  erase key [] = []
  erase key ((k, v) ∷ entries) =
      let later = erase key entries in if eqb key k then later else (k, v) ∷ later

  -- `operator[]` for each of some entries, in their order.
  unfoldable pub assign : List (Bytes × A) → List (Bytes × A) → List (Bytes × A)
  assign table [] = table
  assign table ((k, v) ∷ entries) = assign (insert k v table) entries

  -- The entries of the values that are kept; the others are erased.
  unfoldable pub keep : (A → Bool) → List (Bytes × A) → List (Bytes × A)
  keep test [] = []
  keep test ((k, v) ∷ entries) = if test v then (k, v) ∷ keep test entries else keep test entries

  abbrev pub Above : Bytes → List (Bytes × A) → Type 0
  Above key [] = Unit
  Above key ((k, v) ∷ entries) = (less key k ≡ true) × Above key entries

  abbrev pub Sorted : List (Bytes × A) → Type 0
  Sorted [] = Unit
  Sorted ((k, v) ∷ entries) = Above k entries × Sorted entries

  pub lookup-insert :
      (key : Bytes) (value : A) (entries : List (Bytes × A))
      → lookup key (insert key value entries) ≡ some value
  unfolding lookup insert
  lookup-insert key value [] = rw (eqb_refl key)
  lookup-insert key value ((k, v) ∷ entries) =
      ground (arith, eqb_refl key, lookup-insert key value entries)

  pub lookup-insert-other :
      (key other : Bytes) (value : A) (entries : List (Bytes × A))
      → eqb other key ≡ false
      → lookup other (insert key value entries) ≡ lookup other entries
  unfolding lookup insert
  lookup-insert-other key other value [] ne = rw ne
  lookup-insert-other key other value ((k, v) ∷ entries) ne = elim (Bool-cases (eqb key k)) [
    | inl y ↦
        let e = (eqb_iff key k).0 y in
        let ne' : eqb other k ≡ false = rw (← e) ne in rw (y, ne, ne')
    | inr n ↦ ground (arith, n, ne, lookup-insert-other key other value entries ne)
  ]

  Above-trans :
      (a b : Bytes) (entries : List (Bytes × A))
      → less a b ≡ true
      → Above b entries
      → Above a entries
  Above-trans a b [] h s = tt
  Above-trans a b ((k, v) ∷ entries) h s = (less_trans a b k h s.0, Above-trans a b entries h s.1)

  Above-insert :
      (low key : Bytes) (value : A) (entries : List (Bytes × A))
      → less low key ≡ true
      → Above low entries
      → Above low (insert key value entries)
  unfolding insert
  Above-insert low key value [] h s = (h, tt)
  Above-insert low key value ((k, v) ∷ entries) h s =
      ground (arith, h, s, Above-insert low key value entries h s.1)

  pub insert-Sorted :
      (key : Bytes) (value : A) (entries : List (Bytes × A))
      → Sorted entries
      → Sorted (insert key value entries)
  unfolding insert
  insert-Sorted key value [] s = (tt, tt)
  insert-Sorted key value ((k, v) ∷ entries) s = elim (Bool-cases (eqb key k)) [
    | inl y ↦ let e = (eqb_iff key k).0 y in rw y (rw e s.0, s.1)
    | inr n ↦ rw n (elim (Bool-cases (less key k)) [
      | inl l ↦ rw l ((l, Above-trans key k entries l s.0), s)
      | inr g ↦ rw g (
        Above-insert k key value entries (less_total key k n g) s.0,
        insert-Sorted key value entries s.1,
      )
    ])
  ]

  Above-keep :
      (test : A → Bool) (low : Bytes) (entries : List (Bytes × A))
      → Above low entries
      → Above low (keep test entries)
  unfolding keep
  Above-keep test low [] s = tt
  Above-keep test low ((k, v) ∷ entries) s = ground (arith, s, Above-keep test low entries s.1)

  pub keep-Sorted :
      (test : A → Bool) (entries : List (Bytes × A)) → Sorted entries → Sorted (keep test entries)
  unfolding keep
  keep-Sorted test [] s = tt
  keep-Sorted test ((k, v) ∷ entries) s =
      ground (arith, s, Above-keep test k entries s.0, keep-Sorted test entries s.1)

  Above-erase :
      (key low : Bytes) (entries : List (Bytes × A))
      → Above low entries
      → Above low (erase key entries)
  unfolding erase
  Above-erase key low [] s = tt
  Above-erase key low ((k, v) ∷ entries) s = ground (arith, s, Above-erase key low entries s.1)

  pub erase-Sorted :
      (key : Bytes) (entries : List (Bytes × A)) → Sorted entries → Sorted (erase key entries)
  unfolding erase
  erase-Sorted key [] s = tt
  erase-Sorted key ((k, v) ∷ entries) s =
      ground (arith, s, Above-erase key k entries s.0, erase-Sorted key entries s.1)

  pub lookup-erase-other :
      (key other : Bytes) (entries : List (Bytes × A))
      → eqb other key ≡ false
      → lookup other (erase key entries) ≡ lookup other entries
  unfolding lookup erase
  lookup-erase-other key other [] ne = refl
  lookup-erase-other key other ((k, v) ∷ entries) ne = elim (Bool-cases (eqb key k)) [
    | inl y ↦
        let e = (eqb_iff key k).0 y in
        let ne' : eqb other k ≡ false = rw (← e) ne in
        rw (y, ne') (lookup-erase-other key other entries ne)
    | inr n ↦ ground (arith, n, lookup-erase-other key other entries ne)
  ]

  abbrev pub kept : (A → Bool) → Option A → Option A
  kept test none = none
  kept test (some v) = if test v then some v else none

  pub lookup-Above :
      (key : Bytes) (entries : List (Bytes × A)) → Above key entries → lookup key entries ≡ none
  unfolding lookup
  lookup-Above key [] s = refl
  lookup-Above key ((k, v) ∷ entries) s = rw ((less-ne key k s.0).0) (lookup-Above key entries s.1)

  pub lookup-keep :
      (test : A → Bool) (key : Bytes) (entries : List (Bytes × A))
      → Sorted entries
      → lookup key (keep test entries) ≡ kept test (lookup key entries)
  unfolding keep lookup
  lookup-keep test key [] s = refl
  lookup-keep test key ((k, v) ∷ entries) s = elim (Bool-cases (eqb key k)) [
    | inl y ↦
        let e = (eqb_iff key k).0 y in
        let gone : lookup key (keep test entries) ≡ none =
          lookup-Above key (keep test entries) (rw e (Above-keep test k entries s.0)) in
        ground (arith, y, gone)
    | inr n ↦ ground (arith, n, lookup-keep test key entries s.1)
  ]
