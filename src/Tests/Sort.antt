-- ===== src/Tests/Sort.antt =====
-- A sort of files by agent, for the tests of src/gateway/gateway_handler.cpp.
use drlog_search.Base.{
  false, List, [], ◌∷◌, Bytes, if◌then◌else◌, ◌≡◌, refl, inl, inr, arith, Bool-cases, Permᴰ,
  Permᴰ_refl,
}
use drlog_search.Table.{less}
use drlog_search.Table.Order.{less_asym}
use drlog_search.Gateway.Listing.{AgentFileIndex}
use drlog_search.Gateway.Dispatch.Groups.{From, Ascending, less_le_trans}

insert_index : AgentFileIndex → List AgentFileIndex → List AgentFileIndex
insert_index index [] = index ∷ []
insert_index index (first ∷ indexes) =
    let later = insert_index index indexes in
    if less first.agent_id index.agent_id then first ∷ later else index ∷ first ∷ indexes

pub sort_indexes : List AgentFileIndex → List AgentFileIndex
unfolding insert_index
sort_indexes [] = []
sort_indexes (index ∷ indexes) = insert_index index (sort_indexes indexes)

insert_index-Permᴰ :
    (index : AgentFileIndex) (indexes : List AgentFileIndex)
    → Permᴰ (index ∷ indexes) (insert_index index indexes)
unfolding insert_index
insert_index-Permᴰ index [] = Permᴰ_refl _
insert_index-Permᴰ index (first ∷ indexes) =
    elim (Bool-cases (less first.agent_id index.agent_id)) [
      | inl y ↦
          rw y (
            Permᴰ.trans (Permᴰ.swap refl refl) (Permᴰ.cons refl (insert_index-Permᴰ index indexes)))
      | inr n ↦ rw n (Permᴰ_refl _)
    ]

pub sort_indexes-Permᴰ : (indexes : List AgentFileIndex) → Permᴰ indexes (sort_indexes indexes)
unfolding sort_indexes
sort_indexes-Permᴰ [] = Permᴰ.nil
sort_indexes-Permᴰ (index ∷ indexes) =
    Permᴰ.trans (Permᴰ.cons refl (sort_indexes-Permᴰ indexes))
      (insert_index-Permᴰ index (sort_indexes indexes))

From-insert :
    (id : Bytes) (index : AgentFileIndex) (indexes : List AgentFileIndex)
    → less index.agent_id id ≡ false
    → From id indexes
    → From id (insert_index index indexes)
unfolding insert_index
From-insert id index [] h f = (h, tt)
From-insert id index (first ∷ indexes) h f =
    elim (Bool-cases (less first.agent_id index.agent_id)) [
      | inl y ↦ rw y (f.0, From-insert id index indexes h f.1)
      | inr n ↦ rw n (h, f)
    ]

From-From :
    (id low : Bytes) (indexes : List AgentFileIndex)
    → less low id ≡ false
    → From low indexes
    → From id indexes
From-From id low [] h f = tt
From-From id low (index ∷ indexes) h f = (
  elim (Bool-cases (less index.agent_id id)) [
    | inl y ↦ absurd (let z = less_le_trans index.agent_id id low y h in ground (arith, z, f.0))
    | inr n ↦ n
  ],
  From-From id low indexes h f.1,
)

insert_index-Ascending :
    (index : AgentFileIndex) (indexes : List AgentFileIndex)
    → Ascending indexes
    → Ascending (insert_index index indexes)
unfolding insert_index
insert_index-Ascending index [] s = (tt, tt)
insert_index-Ascending index (first ∷ indexes) s =
    elim (Bool-cases (less first.agent_id index.agent_id)) [
      | inl y ↦ rw y (
        From-insert first.agent_id index indexes (less_asym first.agent_id index.agent_id y) s.0,
        insert_index-Ascending index indexes s.1,
      )
      | inr n ↦ rw n ((n, From-From index.agent_id first.agent_id indexes n s.0), s)
    ]

pub sort_indexes-Ascending : (indexes : List AgentFileIndex) → Ascending (sort_indexes indexes)
unfolding sort_indexes
sort_indexes-Ascending [] = tt
sort_indexes-Ascending (index ∷ indexes) =
    insert_index-Ascending index (sort_indexes indexes) (sort_indexes-Ascending indexes)
