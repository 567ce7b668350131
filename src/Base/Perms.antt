-- ===== src/Base/Perms.antt =====
-- Lists in another order, and the elements of a list that pass a test.
use Prim.Native.Nat.{suc}
use mathlib.Core.Path.{◌≡◌, refl, sym, ◌∙◌, subst, ap}
use mathlib.Core.Bool.{Bool, true, false}
use mathlib.Core.List.{List, [], ◌∷◌, map, Permᴰ}
use mathlib.Core.Logic.{inl, inr}
use drlog_search.Base.Lists.{All, length}
use drlog_search.Base.Tests.{if◌then◌else◌, Bool-cases}

pub Permᴰ_refl {ℓ} : {A : Type ℓ} (xs : List A) → Permᴰ xs xs
Permᴰ_refl [] = Permᴰ.nil
Permᴰ_refl (x ∷ xs) = Permᴰ.cons refl (Permᴰ_refl xs)

module _ {ℓ} {A : Type ℓ} (test : A → Bool) where
  abbrev pub select : List A → List A
  select [] = []
  select (x ∷ xs) = if test x then x ∷ select xs else select xs

  pub select-All {κ} : (P : A → Type κ) (xs : List A) → All P xs → All P (select xs)
  select-All P [] h = tt
  select-All P (x ∷ xs) h = elim (Bool-cases (test x)) [
    | inl y ↦ rw y (h.0, select-All P xs h.1)
    | inr n ↦ rw n (select-All P xs h.1)
  ]

  pub select-Permᴰ : {xs ys : List A} → Permᴰ xs ys → Permᴰ (select xs) (select ys)
  select-Permᴰ Permᴰ.nil = Permᴰ.nil
  select-Permᴰ (Permᴰ.cons {a} {b} {l₁} {l₂} e p) = elim (Bool-cases (test a)) [
    | inl y ↦ let y' : test b ≡ true = rw (← e) y in rw (y, y') (Permᴰ.cons e (select-Permᴰ p))
    | inr n ↦ let n' : test b ≡ false = rw (← e) n in rw (n, n') (select-Permᴰ p)
  ]
  select-Permᴰ (Permᴰ.swap {a} {b} {a'} {b'} {l} e d) =
      rw (e, d)
        (elim (Bool-cases (test b')) [
          | inl y ↦ elim (Bool-cases (test a')) [
            | inl z ↦ rw (y, z) (Permᴰ.swap refl refl)
            | inr z ↦ rw (y, z) (Permᴰ_refl _)
          ]
          | inr n ↦ rw n (Permᴰ_refl _)
        ])
  select-Permᴰ (Permᴰ.trans p q) = Permᴰ.trans (select-Permᴰ p) (select-Permᴰ q)

pub All-Permᴰ {ℓ κ} :
    {A : Type ℓ} (P : A → Type κ) {xs ys : List A} → Permᴰ xs ys → All P xs → All P ys
All-Permᴰ P Permᴰ.nil h = tt
All-Permᴰ P (Permᴰ.cons e p) h = (subst P e h.0, All-Permᴰ P p h.1)
All-Permᴰ P (Permᴰ.swap e d) h = (subst P d h.1.0, (subst P e h.0, h.1.1))
All-Permᴰ P (Permᴰ.trans p q) h = All-Permᴰ P q (All-Permᴰ P p h)

pub map-Permᴰ {ℓ κ} :
    {A : Type ℓ} {B : Type κ} (f : A → B) {xs ys : List A}
    → Permᴰ xs ys
    → Permᴰ (map f xs) (map f ys)
map-Permᴰ f Permᴰ.nil = Permᴰ.nil
map-Permᴰ f (Permᴰ.cons e p) = Permᴰ.cons (ap f e) (map-Permᴰ f p)
map-Permᴰ f (Permᴰ.swap e d) = Permᴰ.swap (ap f e) (ap f d)
map-Permᴰ f (Permᴰ.trans p q) = Permᴰ.trans (map-Permᴰ f p) (map-Permᴰ f q)

pub length-Permᴰ {ℓ} : {A : Type ℓ} {xs ys : List A} → Permᴰ xs ys → length xs ≡ length ys
length-Permᴰ Permᴰ.nil = refl
length-Permᴰ (Permᴰ.cons e p) = ap suc (length-Permᴰ p)
length-Permᴰ (Permᴰ.swap e d) = refl
length-Permᴰ (Permᴰ.trans p q) = length-Permᴰ p ∙ length-Permᴰ q

pub Permᴰ_sym {ℓ} : {A : Type ℓ} {xs ys : List A} → Permᴰ xs ys → Permᴰ ys xs
Permᴰ_sym Permᴰ.nil = Permᴰ.nil
Permᴰ_sym (Permᴰ.cons e p) = Permᴰ.cons (sym e) (Permᴰ_sym p)
Permᴰ_sym (Permᴰ.swap e d) = Permᴰ.swap (sym d) (sym e)
Permᴰ_sym (Permᴰ.trans p q) = Permᴰ.trans (Permᴰ_sym q) (Permᴰ_sym p)
