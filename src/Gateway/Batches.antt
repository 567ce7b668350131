-- ===== src/Gateway/Batches.antt =====
-- How the gateway shares its requests out among coroutines (`get_agent_log_lists` and
-- `get_agent_search` of src/gateway/gateway_handler.cpp).
use drlog_search.Base.{
  ℕ, zero, suc, ◌+◌, ◌-◌, ◌*◌, ◌/◌, ◌≤◌, ◌<◌, min, Option, none, some, List, [], ◌∷◌, ◌++◌, ◌≡◌,
  refl, sym, ◌∙◌, arith, take, drop, length, get_elem?, take-append-drop, All, Bool-cases, inl, inr,
  leb, leb→le,
}

-- `none` is an access out of range.
module _ {ℓ} {A : Type ℓ} where
  unfoldable pub push_front : Option A → Option (List A) → Option (List A)
  push_front (some x) (some rest) = some (x ∷ rest)
  push_front _ _ = none

  -- The loop of a coroutine, over so many indices from `j` on.
  unfoldable pub elements_from : List A → ℕ → ℕ → Option (List A)
  unfolding push_front
  elements_from xs zero j = some []
  elements_from xs (suc n) j = push_front (get_elem? xs j) (elements_from xs n (suc j))

unfoldable pub batches_from {ℓ} : {A : Type ℓ} → ℕ → List A → ℕ → ℕ → Option (List (List A))
unfolding elements_from push_front
batches_from max_tasks xs zero i = some []
batches_from max_tasks xs (suc n) i =
    let start_index = i * max_tasks in
    let end_index = min (start_index + max_tasks) (length xs) in
    push_front (elements_from xs (end_index - start_index) start_index)
      (batches_from max_tasks xs n (suc i))

-- The elements that each coroutine has.
unfoldable pub batches {ℓ} : {A : Type ℓ} → ℕ → List A → Option (List (List A))
unfolding batches_from
batches max_tasks xs = batches_from max_tasks xs ((length xs + max_tasks - 1) / max_tasks) 0

abbrev pub concat {ℓ} : {A : Type ℓ} → List (List A) → List A
concat [] = []
concat (xs ∷ xss) = xs ++ concat xss

drop-get_elem {ℓ} :
    {A : Type ℓ} (xs : List A) (j : ℕ)
    → j < length xs
    → (x : A) × (get_elem? xs j ≡ some x) × (drop j xs ≡ x ∷ drop (suc j) xs)
drop-get_elem [] j h = absurd (omega arith)
drop-get_elem (x ∷ xs) zero h = (x, refl, refl)
drop-get_elem (x ∷ xs) (suc j) h = drop-get_elem xs j (omega arith)

elements_from-take {ℓ} :
    {A : Type ℓ} (xs : List A) (n j : ℕ)
    → j + n ≤ length xs
    → elements_from xs n j ≡ some (take n (drop j xs))
unfolding elements_from push_front
elements_from-take xs zero j h = refl
elements_from-take xs (suc n) j h =
    let (x, e, d) = drop-get_elem xs j (omega arith) in
    rw (e, d, elements_from-take xs n (suc j) (omega arith)) refl

-- What batches are to a list: together they are the list, and each has one to `max_tasks` elements.
unfoldable pub Shares {ℓ} : {A : Type ℓ} → ℕ → List A → Option (List (List A)) → Type ℓ
Shares {A = A} max_tasks xs o =
    (bs : List (List A)) × (o ≡ some bs)
    × (concat bs ≡ xs)
    × All (λ b. (0 < length b) × (length b ≤ max_tasks)) bs

drop_past {ℓ} : {A : Type ℓ} (xs : List A) (n : ℕ) → length xs ≤ n → drop n xs ≡ []
drop_past [] zero h = refl
drop_past [] (suc n) h = refl
drop_past (x ∷ xs) zero h = absurd (omega arith)
drop_past (x ∷ xs) (suc n) h = drop_past xs n (omega arith)

drop-drop {ℓ} : {A : Type ℓ} (xs : List A) (m n : ℕ) → drop m (drop n xs) ≡ drop (m + n) xs
drop-drop xs m zero = let e : m + 0 ≡ m = omega arith in rw e refl
drop-drop [] m (suc n) = drop_past [] m (omega arith) ∙ sym (drop_past [] (m + suc n) (omega arith))
drop-drop (x ∷ xs) m (suc n) =
    let e : m + suc n ≡ suc (m + n) = omega arith in rw e (drop-drop xs m n)

length-take {ℓ} : {A : Type ℓ} (n : ℕ) (xs : List A) → n ≤ length xs → length (take n xs) ≡ n
length-take zero xs h = refl
length-take (suc n) [] h = absurd (omega arith)
length-take (suc n) (x ∷ xs) h = omega (arith, length-take n xs (omega arith))

length-drop {ℓ} : {A : Type ℓ} (n : ℕ) (xs : List A) → length (drop n xs) ≡ length xs - n
length-drop zero xs = omega arith
length-drop (suc n) [] = omega arith
length-drop (suc n) (x ∷ xs) = omega (arith, length-drop n xs)

-- The end of a batch: behind it the list goes on where the next batch begins.
drop-batch {ℓ} :
    {A : Type ℓ} (xs : List A) (m s : ℕ)
    → s < length xs
    → drop (min (s + m) (length xs) - s) (drop s xs) ≡ drop (s + m) xs
drop-batch xs m s h = elim (Bool-cases (leb (s + m) (length xs))) [
  | inl y ↦
      let l = leb→le _ _ y in
      let e : min (s + m) (length xs) - s ≡ m = omega arith in
      let e' : s + m ≡ m + s = omega arith in rw (e, e') (drop-drop xs m s)
  | inr n ↦
      let e : min (s + m) (length xs) - s ≡ length xs - s = ground (arith, n) in
      let e' : length xs - s + s ≡ length xs = omega arith in
      rw (e, drop-drop xs (length xs - s) s, e', drop_past xs (length xs) (omega arith))
        (sym (drop_past xs (s + m) (ground (arith, n))))
]

batches_from-Shares {ℓ} :
    {A : Type ℓ} (m : ℕ) (xs : List A) (n i : ℕ)
    → 0 < m
    → length xs ≤ i * m + n * m
    → i * m + n * m < length xs + m
    → Shares m (drop (i * m) xs) (batches_from m xs n i)
unfolding batches_from push_front Shares
batches_from-Shares m xs zero i p h k = ([], refl, sym (drop_past xs (i * m) (omega arith)), tt)
batches_from-Shares m xs (suc n) i p h k =
    let s = i * m in
    let d1 : suc i * m ≡ s + m = omega arith in
    let d2 : suc n * m ≡ n * m + m = omega arith in
    let count = min (s + m) (length xs) - s in
    let (bs, e, c, a) = batches_from-Shares m xs n (suc i) p (omega arith) (omega arith) in
    let size = length-take count (drop s xs) (omega (arith, length-drop s xs)) in
    (
      take count (drop s xs) ∷ bs,
      rw (elements_from-take xs count s (omega arith), e) refl,
      rw (c, d1, ← (drop-batch xs m s (omega arith))) (take-append-drop count (drop s xs)),
      ((omega (arith, size), omega (arith, size)), a),
    )

batches_lem {ℓ} :
    {A : Type ℓ} (m : ℕ) (xs : List A)
    → 0 < m
    → length xs ≤ ((length xs + m - 1) / m) * m
    → ((length xs + m - 1) / m) * m < length xs + m
    → Shares m xs (batches m xs)
unfolding batches
batches_lem m xs p h k =
    let z : 0 * m ≡ 0 = omega arith in
    rw z at (batches_from-Shares m xs ((length xs + m - 1) / m) 0 p (omega arith) (omega arith))

-- Shared out ten at a time or one at a time, the batches hold between them each element once, in
-- the order of the list, no access is out of range, and no batch is empty or holds more than its
-- number.
pub batches-Shares {ℓ} :
    {A : Type ℓ} (xs : List A) → Shares 10 xs (batches 10 xs) × Shares 1 xs (batches 1 xs)
batches-Shares xs = (
  batches_lem 10 xs (omega arith) (omega arith) (omega arith),
  batches_lem 1 xs (omega arith) (omega arith) (omega arith),
)
