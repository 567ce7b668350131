-- ===== src/Gateway/Dispatch/Groups.antt =====
-- The groups of `get_agent_search` (src/gateway/gateway_handler.cpp): one for each agent.
use drlog_search.Base.{
  true, false, Option, none, some, List, [], ◌∷◌, ◌++◌, Bytes, if◌then◌else◌, ◌≡◌, refl, ap, inl,
  inr, ◌≢◌, All, eqb, eqb_iff, Bool-cases, append-nil, append_assoc, select, All-append,
}
use drlog_search.Table.{less, lookup, Above, Sorted, less_trans, less_total, less-ne}
use drlog_search.Gateway.Listing.{AgentFileIndex}
use drlog_search.Gateway.Dispatch.{push_behind, push_to_back, group_step, group_loop}

-- The files of an agent.
abbrev pub files_of : Bytes → List AgentFileIndex → List AgentFileIndex
files_of id indexes = select (λ index. eqb id index.agent_id) indexes

abbrev pub From : Bytes → List AgentFileIndex → Type 0
From id indexes = All (λ index. less index.agent_id id ≡ false) indexes

-- What `std::sort` by agent gives.
abbrev pub Ascending : List AgentFileIndex → Type 0
Ascending [] = Unit
Ascending (index ∷ indexes) = From index.agent_id indexes × Ascending indexes

abbrev pub keyed : List (List AgentFileIndex) → List (Bytes × List AgentFileIndex)
keyed [] = []
keyed ([] ∷ groups) = keyed groups
keyed ((index ∷ indexes) ∷ groups) = (index.agent_id, index ∷ indexes) ∷ keyed groups

abbrev pub asked {ℓ} : {A : Type ℓ} → List A → Option (List A)
asked [] = none
asked (x ∷ xs) = some (x ∷ xs)

-- The groups, with the one that is being filled.
unfoldable pub runs : Bytes → List AgentFileIndex → List AgentFileIndex → List (List AgentFileIndex)
runs id group [] = group ∷ []
runs id group (index ∷ indexes) =
    let same = runs id (group ++ index ∷ []) indexes in
    let next = runs index.agent_id (index ∷ []) indexes in
    if eqb index.agent_id id then same else group ∷ next

push_to_back-append :
    (index : AgentFileIndex) (groups : List (List AgentFileIndex)) (group : List AgentFileIndex)
    → push_to_back index (groups ++ group ∷ []) ≡ some (groups ++ (group ++ index ∷ []) ∷ [])
unfolding push_to_back push_behind
push_to_back-append index [] group = refl
push_to_back-append index (g ∷ []) group = refl
push_to_back-append index (g ∷ h ∷ groups) group =
    rw (push_to_back-append index (h ∷ groups) group) refl

group_loop-runs :
    (id : Bytes) (groups : List (List AgentFileIndex)) (group indexes : List AgentFileIndex)
    → group_loop (id, some (groups ++ group ∷ [])) indexes ≡ some (groups ++ runs id group indexes)
unfolding group_loop group_step runs
group_loop-runs id groups group [] = refl
group_loop-runs id groups group (index ∷ indexes) = elim (Bool-cases (eqb index.agent_id id)) [
  | inl y ↦
      rw (y, push_to_back-append index groups group)
        (group_loop-runs id groups (group ++ index ∷ []) indexes)
  | inr n ↦
      rw
        (
          n,
          push_to_back-append index (groups ++ group ∷ []) [],
          group_loop-runs index.agent_id (groups ++ group ∷ []) (index ∷ []) indexes,
        )
        (ap some (append_assoc groups (group ∷ []) (runs index.agent_id (index ∷ []) indexes)))
]

pub less_le_trans : (a b c : Bytes) → less a b ≡ true → less c b ≡ false → less a c ≡ true
less_le_trans a b c h k = elim (Bool-cases (eqb c b)) [
  | inl y ↦ let e = (eqb_iff c b).0 y in rw e h
  | inr n ↦ less_trans a b c h (less_total c b n k)
]

From-trans :
    (a b : Bytes) (indexes : List AgentFileIndex)
    → less a b ≡ true
    → From b indexes
    → All (λ index. less a index.agent_id ≡ true) indexes
From-trans a b [] h s = tt
From-trans a b (index ∷ indexes) h s =
    (less_le_trans a b index.agent_id h s.0, From-trans a b indexes h s.1)

files_of-past :
    (id : Bytes) (indexes : List AgentFileIndex)
    → All (λ index. less id index.agent_id ≡ true) indexes
    → files_of id indexes ≡ []
files_of-past id [] h = refl
files_of-past id (index ∷ indexes) h =
    rw (less-ne id index.agent_id h.0).0 (files_of-past id indexes h.1)

runs-Above :
    (low id : Bytes) (index : AgentFileIndex) (group indexes : List AgentFileIndex)
    → index.agent_id ≡ id
    → less low id ≡ true
    → All (λ i. less low i.agent_id ≡ true) indexes
    → Above low (keyed (runs id (index ∷ group) indexes))
unfolding runs
runs-Above low id index group [] e l h = (rw e l, tt)
runs-Above low id index group (i ∷ indexes) e l h = elim (Bool-cases (eqb i.agent_id id)) [
  | inl y ↦ rw y (runs-Above low id index (group ++ i ∷ []) indexes e l h.1)
  | inr n ↦ rw n (rw e l, runs-Above low i.agent_id i [] indexes refl h.0 h.1)
]

runs-Sorted :
    (id : Bytes) (index : AgentFileIndex) (group indexes : List AgentFileIndex)
    → index.agent_id ≡ id
    → From id indexes
    → Ascending indexes
    → Sorted (keyed (runs id (index ∷ group) indexes))
unfolding runs
runs-Sorted id index group [] e f s = (tt, tt)
runs-Sorted id index group (i ∷ indexes) e f s = elim (Bool-cases (eqb i.agent_id id)) [
  | inl y ↦ rw y (runs-Sorted id index (group ++ i ∷ []) indexes e f.1 s.1)
  | inr n ↦
      let l = less_total i.agent_id id n f.0 in
      rw (n, e)
        (
          runs-Above id i.agent_id i [] indexes refl l (From-trans id i.agent_id indexes l s.0),
          runs-Sorted i.agent_id i [] indexes refl s.0 s.1,
        )
]

lookup-runs :
    (id last : Bytes) (index : AgentFileIndex) (group indexes : List AgentFileIndex)
    → index.agent_id ≡ last
    → From last indexes
    → Ascending indexes
    → lookup id (keyed (runs last (index ∷ group) indexes)) ≡ (
        if eqb id last
        then some ((index ∷ group) ++ files_of id indexes)
        else asked (files_of id indexes))
unfolding runs lookup
lookup-runs id last index group [] e f s = rw (e, append-nil group) refl
lookup-runs id last index group (i ∷ indexes) e f s = elim (Bool-cases (eqb i.agent_id last)) [
  | inl y ↦
      let ih = lookup-runs id last index (group ++ i ∷ []) indexes e f.1 s.1 in
      let same : eqb id i.agent_id ≡ eqb id last = ap (eqb id) ((eqb_iff i.agent_id last).0 y) in
      rw (y, ih, same)
        (elim (Bool-cases (eqb id last)) [
          | inl z ↦
              rw z (ap (λ t. some (index ∷ t)) (append_assoc group (i ∷ []) (files_of id indexes)))
          | inr z ↦ rw z refl
        ])
  | inr n ↦
      let ih = lookup-runs id i.agent_id i [] indexes refl s.0 s.1 in
      let l = less_total i.agent_id last n f.0 in
      let same : eqb id index.agent_id ≡ eqb id last = ap (eqb id) e in
      rw (n, same, ih)
        (elim (Bool-cases (eqb id last)) [
          | inl z ↦
              let is = (eqb_iff id last).0 z in
              let l' : less id i.agent_id ≡ true = rw is l in
              rw
                (
                  z,
                  (less-ne id i.agent_id l').0,
                  files_of-past id indexes (From-trans id i.agent_id indexes l' s.0),
                  append-nil group,
                )
                refl
          | inr z ↦ elim (Bool-cases (eqb id i.agent_id)) [
            | inl w ↦ rw (z, w) refl
            | inr w ↦ rw (z, w) refl
          ]
        ])
]

runs-All {κ} :
    (P : AgentFileIndex → Type κ) (id : Bytes) (group indexes : List AgentFileIndex)
    → All P group
    → All P indexes
    → All (All P) (runs id group indexes)
unfolding runs
runs-All P id group [] g h = (g, tt)
runs-All P id group (i ∷ indexes) g h = elim (Bool-cases (eqb i.agent_id id)) [
  | inl y ↦
      rw y (runs-All P id (group ++ i ∷ []) indexes (All-append P group (i ∷ []) g (h.0, tt)) h.1)
  | inr n ↦ rw n (g, runs-All P i.agent_id (i ∷ []) indexes (h.0, tt) h.1)
]

-- What the groups of a list are: by their agents, in the order of the ids, each with the files of
-- its agent in the list.
unfoldable pub Groups : List AgentFileIndex → List (List AgentFileIndex) → Type 0
Groups indexes groups =
    Sorted (keyed groups) × ((id : Bytes) → lookup id (keyed groups) ≡ asked (files_of id indexes))

pub group_loop-Groups {κ} :
    (P : AgentFileIndex → Type κ) (indexes : List AgentFileIndex)
    → All P indexes
    → All (λ index. index.agent_id ≢ []) indexes
    → Ascending indexes
    → (groups : List (List AgentFileIndex)) × (group_loop ([], some []) indexes ≡ some groups)
      × Groups indexes groups
      × All (All P) groups
unfolding group_loop group_step push_to_back Groups lookup
group_loop-Groups P [] k h s = ([], refl, (tt, λ id. refl), tt)
group_loop-Groups P (index ∷ indexes) k h s =
    let first : eqb index.agent_id [] ≡ false = elim (Bool-cases (eqb index.agent_id [])) [
      | inl y ↦ absurd (h.0 ((eqb_iff index.agent_id []).0 y))
      | inr n ↦ n
    ] in
    (
      runs index.agent_id (index ∷ []) indexes,
      rw (first, group_loop-runs index.agent_id [] (index ∷ []) indexes) refl,
      (
        runs-Sorted index.agent_id index [] indexes refl s.0 s.1,
        λ id.
            (rw (lookup-runs id index.agent_id index [] indexes refl s.0 s.1)
              (elim (Bool-cases (eqb id index.agent_id)) [
                | inl y ↦ rw y refl
                | inr n ↦ rw n refl
              ])),
      ),
      runs-All P index.agent_id (index ∷ []) indexes (k.0, tt) k.1,
    )
