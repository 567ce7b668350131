-- ===== src/Table/Order.antt =====
-- The entries of a `std::map` do not depend on the order in which they were assigned.
use drlog_search.Base.{
  true, false, none, some, List, [], ◌∷◌, ◌++◌, Bytes, if◌then◌else◌, ◌≡◌, refl, sym, ap, ◌∙◌, inl,
  inr, arith, Bool-cases, eqb, eqb_iff, eqb_refl, All, Permᴰ, All-Permᴰ, subst, append-nil,
  append_assoc,
}
use drlog_search.Table.{
  less, lookup, insert, assign, Above, Sorted, less-ne, less_total, less_trans, less_irrefl,
  lookup-Above, lookup-insert, lookup-insert-other, insert-Sorted,
}

pub less_asym : (a b : Bytes) → less a b ≡ true → less b a ≡ false
less_asym a b h = elim (Bool-cases (less b a)) [
  | inl y ↦ let z = less_trans a b a h y in absurd (ground (arith, z, less_irrefl a))
  | inr n ↦ n
]

pub eqb_sym : (a b : Bytes) → eqb a b ≡ false → eqb b a ≡ false
eqb_sym a b h = elim (Bool-cases (eqb b a)) [
  | inl y ↦
      let e = (eqb_iff b a).0 y in
      let z : eqb a a ≡ false = rw e at h in absurd (ground (arith, z, eqb_refl a))
  | inr n ↦ n
]

module _ {ℓ} {A : Type ℓ} where
  Above-lookup :
      (key : Bytes) (entries : List (Bytes × A)) (low : Bytes)
      → less key low ≡ true
      → Above low entries
      → lookup key entries ≡ none
  unfolding lookup
  Above-lookup key [] low l h = refl
  Above-lookup key ((k, v) ∷ entries) low l h =
      rw (less-ne key k (less_trans key low k l h.0)).0 (Above-lookup key entries low l h.1)

  -- Two maps that find the same are the same.
  pub Sorted-ext :
      (s t : List (Bytes × A))
      → Sorted s
      → Sorted t
      → ((key : Bytes) → lookup key s ≡ lookup key t)
      → s ≡ t
  unfolding lookup
  Sorted-ext [] [] p q h = refl
  Sorted-ext [] ((k, v) ∷ t) p q h = let z = h k in absurd (ground (arith, z, eqb_refl k))
  Sorted-ext ((k, v) ∷ s) [] p q h = let z = h k in absurd (ground (arith, z, eqb_refl k))
  Sorted-ext ((k, v) ∷ s) ((k', v') ∷ t) p q h = elim (Bool-cases (eqb k k')) [
    | inl y ↦
        let e = (eqb_iff k k').0 y in
        let first : some v ≡ some v' = rw (eqb_refl k, y) at (h k) in
        let ve : v ≡ v' = cc in
        let rest = Sorted-ext s t p.1 q.1 (λ key. elim (Bool-cases (eqb key k)) [
          | inl z ↦
              let is = (eqb_iff key k).0 z in
              rw is (lookup-Above k s p.0 ∙ sym (lookup-Above k t (rw e q.0)))
          | inr z ↦ let z' : eqb key k' ≡ false = rw (← e) z in rw (z, z') at (h key)
        ]) in
        rw (e, ve, rest) refl
    | inr n ↦ elim (Bool-cases (less k k')) [
      | inl l ↦ let z : some v ≡ none = rw (eqb_refl k, n, Above-lookup k t k' l q.0) at (h k) in cc
      | inr g ↦
          let l = less_total k k' n g in
          let z : none ≡ some v' =
            rw (eqb_refl k', eqb_sym k k' n, Above-lookup k' s k l p.0) at (h k') in
          cc
    ]
  ]

  lookup-insert_if :
      (key k : Bytes) (v : A) (entries : List (Bytes × A))
      → lookup key (insert k v entries) ≡ (if eqb key k then some v else lookup key entries)
  lookup-insert_if key k v entries = elim (Bool-cases (eqb key k)) [
    | inl y ↦ let e = (eqb_iff key k).0 y in rw (y, e) (lookup-insert k v entries)
    | inr n ↦ rw n (lookup-insert-other k key v entries n)
  ]

  pub insert_comm :
      (k k' : Bytes) (v v' : A) (entries : List (Bytes × A))
      → eqb k k' ≡ false
      → Sorted entries
      → insert k v (insert k' v' entries) ≡ insert k' v' (insert k v entries)
  insert_comm k k' v v' entries n s =
      Sorted-ext (insert k v (insert k' v' entries)) (insert k' v' (insert k v entries))
        (insert-Sorted k v _ (insert-Sorted k' v' entries s))
        (insert-Sorted k' v' _ (insert-Sorted k v entries s))
        (λ key.
          rw
            (
              lookup-insert_if key k v,
              lookup-insert_if key k' v',
              lookup-insert_if key k' v',
              lookup-insert_if key k v,
            )
            (elim (Bool-cases (eqb key k)) [
              | inl y ↦ let e = (eqb_iff key k).0 y in rw (y, e, n) refl
              | inr z ↦ rw z refl
            ]))

  abbrev pub Apart : Bytes → List (Bytes × A) → Type 0
  Apart key entries = All (λ entry. eqb key entry.0 ≡ false) entries

  -- No key is there twice.
  abbrev pub Distinct : List (Bytes × A) → Type 0
  Distinct [] = Unit
  Distinct ((k, v) ∷ entries) = Apart k entries × Distinct entries

  pub Distinct-Permᴰ : {s t : List (Bytes × A)} → Permᴰ s t → Distinct s → Distinct t
  Distinct-Permᴰ Permᴰ.nil d = d
  Distinct-Permᴰ (Permᴰ.cons {a} {b} {l₁} {l₂} e p) d = (
    All-Permᴰ (λ entry. eqb b.0 entry.0 ≡ false) p (subst (λ (x : Bytes × A). Apart x.0 l₁) e d.0),
    Distinct-Permᴰ p d.1,
  )
  Distinct-Permᴰ (Permᴰ.swap {a} {b} {a'} {b'} {l} e f) d = (
    (
      subst (λ (x : Bytes × A). eqb x.0 b'.0 ≡ false) f
          (subst (λ (x : Bytes × A). eqb b.0 x.0 ≡ false) e (eqb_sym a.0 b.0 d.0.0)),
      subst (λ (x : Bytes × A). Apart x.0 l) f d.1.0,
    ),
    (subst (λ (x : Bytes × A). Apart x.0 l) e d.0.1, d.1.1),
  )
  Distinct-Permᴰ (Permᴰ.trans p q) d = Distinct-Permᴰ q (Distinct-Permᴰ p d)

  assign-Permᴰ :
      {s t : List (Bytes × A)} (table : List (Bytes × A))
      → Permᴰ s t
      → Distinct s
      → Sorted table
      → assign table s ≡ assign table t
  unfolding assign
  assign-Permᴰ table Permᴰ.nil d h = refl
  assign-Permᴰ table (Permᴰ.cons {a} {b} {l₁} {l₂} e p) d h =
      assign-Permᴰ (insert a.0 a.1 table) p d.1 (insert-Sorted a.0 a.1 table h)
      ∙ ap (λ (x : Bytes × A). assign (insert x.0 x.1 table) l₂) e
  assign-Permᴰ table (Permᴰ.swap {a} {b} {a'} {b'} {l} e f) d h =
      ap (λ t. assign t l) (insert_comm b.0 a.0 b.1 a.1 table (eqb_sym a.0 b.0 d.0.0) h)
      ∙ ap (λ (x : Bytes × A). assign (insert a.0 a.1 (insert x.0 x.1 table)) l) f
      ∙ ap (λ (x : Bytes × A). assign (insert x.0 x.1 (insert a'.0 a'.1 table)) l) e
  assign-Permᴰ table (Permᴰ.trans p q) d h =
      assign-Permᴰ table p d h ∙ assign-Permᴰ table q (Distinct-Permᴰ p d) h

  Above-middle :
      (low : Bytes) (table : List (Bytes × A)) (k : Bytes) (v : A) (entries : List (Bytes × A))
      → Above low (table ++ (k, v) ∷ entries)
      → less low k ≡ true
  Above-middle low [] k v entries h = h.0
  Above-middle low ((a, b) ∷ table) k v entries h = Above-middle low table k v entries h.1

  insert-last :
      (table : List (Bytes × A)) (k : Bytes) (v : A) (entries : List (Bytes × A))
      → Sorted (table ++ (k, v) ∷ entries)
      → insert k v table ≡ table ++ (k, v) ∷ []
  unfolding insert
  insert-last [] k v entries s = refl
  insert-last ((a, b) ∷ table) k v entries s =
      let l = Above-middle a table k v entries s.0 in
      rw ((less-ne a k l).1, less_asym a k l) (ap (◌∷◌ (a, b)) (insert-last table k v entries s.1))

  assign-append :
      (table entries : List (Bytes × A))
      → Sorted (table ++ entries)
      → assign table entries ≡ table ++ entries
  unfolding assign
  assign-append table [] s = sym (append-nil table)
  assign-append table ((k, v) ∷ entries) s = rw (insert-last table k v entries s) (
      assign-append (table ++ (k, v) ∷ []) entries (rw (append_assoc table ((k, v) ∷ []) entries) s)
      ∙ append_assoc table ((k, v) ∷ []) entries)

  Above-Apart : (key : Bytes) (entries : List (Bytes × A)) → Above key entries → Apart key entries
  Above-Apart key [] h = tt
  Above-Apart key ((k, v) ∷ entries) h = ((less-ne key k h.0).0, Above-Apart key entries h.1)

  pub Sorted-Distinct : (entries : List (Bytes × A)) → Sorted entries → Distinct entries
  Sorted-Distinct [] s = tt
  Sorted-Distinct ((k, v) ∷ entries) s = (Above-Apart k entries s.0, Sorted-Distinct entries s.1)

  -- Entries in the order of their keys, assigned in any order, are the map.
  pub assign-Sorted_eq :
      (entries order : List (Bytes × A))
      → Sorted entries
      → Permᴰ entries order
      → assign [] order ≡ entries
  assign-Sorted_eq entries order s p =
      sym (assign-Permᴰ [] p (Sorted-Distinct entries s) tt) ∙ assign-append [] entries s
