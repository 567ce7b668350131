-- ===== src/Gateway/Listing/Exact.antt =====
-- What the gateway knows of the agents' files (`get_agent_log_lists` of
-- src/gateway/gateway_handler.cpp).
use drlog_search.Base.{
  true, Option, none, some, List, [], ◌∷◌, ◌++◌, Bytes, codes, ◌==◌, ◌≡◌, refl, sym, ap, ◌∙◌, inl,
  inr, arith, All, All-append, All-map, Bool-cases, eqb, eqb_iff, map, append_assoc, Permᴰ,
  All-Permᴰ, subst,
}
use drlog_search.Json.{Json}
use drlog_search.Http.{Outcome, Returns, returned, thrown, stuck, Reply, Client}
use drlog_search.Gateway.Agents.{AgentInfo}
use drlog_search.Gateway.Batches.{concat, Shares, batches-Shares}
use drlog_search.Gateway.Listing.{
  AgentFileIndex, agent_url, index_of, push_index, indexes_of, parsed_list, replied_list,
  agent_list_of, batch_list, scheduled, get_agent_log_lists,
}
use drlog_search.Gateway.Dispatch.Tasks.{named, Listed}

named-some :
    (id : Bytes) (agent : AgentInfo) (agents : List AgentInfo)
    → (found : AgentInfo) × (named id (some agent) agents ≡ some found)
named-some id agent [] = (agent, refl)
named-some id agent (a ∷ agents) = elim (Bool-cases (eqb id a.agent_id)) [
  | inl y ↦ rw y (named-some id a agents)
  | inr n ↦ rw n (named-some id agent agents)
]

Listed-first :
    (agent : AgentInfo) (agents : List AgentInfo) (index : AgentFileIndex)
    → index.agent_id ≡ agent.agent_id
    → Listed (agent ∷ agents) index
unfolding Listed
Listed-first agent agents index e =
    let y : eqb index.agent_id agent.agent_id ≡ true = (eqb_iff _ _).1 e in
    rw y (named-some index.agent_id agent agents)

Listed-later :
    (agent : AgentInfo) (agents : List AgentInfo) (index : AgentFileIndex)
    → Listed agents index
    → Listed (agent ∷ agents) index
unfolding Listed
Listed-later agent agents index h = elim (Bool-cases (eqb index.agent_id agent.agent_id)) [
  | inl y ↦ rw y (named-some index.agent_id agent agents)
  | inr n ↦ rw n h
]

abbrev Of : Bytes → AgentFileIndex → Type 0
Of agent_id index = index.agent_id ≡ agent_id

module _ (json : Json) where
  open json use {Value}

  index_of-Of :
      (agent_id : Bytes) (item : Value) → Returns (Of agent_id) (index_of json agent_id item)
  unfolding index_of
  index_of-Of agent_id item = ground arith

  push_index-Of :
      (agent_id : Bytes) (o : Outcome AgentFileIndex) (later : List AgentFileIndex)
      → Returns (Of agent_id) o
      → All (Of agent_id) later
      → All (Of agent_id) (push_index json o later)
  unfolding push_index
  push_index-Of agent_id (returned index) later h k = (h, k)
  push_index-Of agent_id thrown later h k = tt
  push_index-Of agent_id stuck later h k = tt

  indexes_of-Of :
      (agent_id : Bytes) (items : List Value) → All (Of agent_id) (indexes_of json agent_id items)
  unfolding indexes_of
  indexes_of-Of agent_id [] = tt
  indexes_of-Of agent_id (item ∷ items) =
      push_index-Of agent_id (index_of json agent_id item) _ (index_of-Of agent_id item)
        (indexes_of-Of agent_id items)

  parsed_list-Of :
      (agent_id : Bytes) (o : Option Value) → All (Of agent_id) (parsed_list json agent_id o)
  unfolding parsed_list
  parsed_list-Of agent_id none = tt
  parsed_list-Of agent_id (some jbody) = elim (Bool-cases (json.is_array jbody)) [
    | inl y ↦ rw y (indexes_of-Of agent_id (json.elements jbody))
    | inr n ↦ rw n tt
  ]

  replied_list-Of :
      (agent_id : Bytes) (o : Option Reply) → All (Of agent_id) (replied_list json agent_id o)
  unfolding replied_list
  replied_list-Of agent_id (some reply) = elim (Bool-cases (reply.status == 200)) [
    | inl y ↦ rw y (parsed_list-Of agent_id (json.parse reply.body))
    | inr n ↦ rw n tt
  ]
  replied_list-Of agent_id none = tt

  -- Every file that is listed is one of an agent that was asked.
  batch_list-Listed :
      (client : Client) (prefix debug_param : Bytes) (agents : List AgentInfo)
      → All (Listed agents) (batch_list json client prefix debug_param agents)
  unfolding batch_list agent_list_of
  batch_list-Listed client prefix debug_param [] = tt
  batch_list-Listed client prefix debug_param (agent ∷ agents) =
      All-append (Listed (agent ∷ agents)) _ _
        (All-map (Of agent.agent_id) (Listed (agent ∷ agents)) (Listed-first agent agents) _ (
          replied_list-Of agent.agent_id
            (client.get (agent_url (codes "/log/list") agent.address prefix debug_param))))
        (All-map (Listed agents) (Listed (agent ∷ agents)) (Listed-later agent agents) _
          (batch_list-Listed client prefix debug_param agents))

  batch_list-append :
      (client : Client) (prefix debug_param : Bytes) (agents others : List AgentInfo)
      → batch_list json client prefix debug_param (agents ++ others)
        ≡ batch_list json client prefix debug_param agents
          ++ batch_list json client prefix debug_param others
  unfolding batch_list
  batch_list-append client prefix debug_param [] others = refl
  batch_list-append client prefix debug_param (agent ∷ agents) others =
      rw (batch_list-append client prefix debug_param agents others)
        (sym (append_assoc (agent_list_of json client prefix debug_param agent) _ _))

  concat-batch_list :
      (client : Client) (prefix debug_param : Bytes) (bs : List (List AgentInfo))
      → concat (map (batch_list json client prefix debug_param) bs)
        ≡ batch_list json client prefix debug_param (concat bs)
  unfolding batch_list
  concat-batch_list client prefix debug_param [] = refl
  concat-batch_list client prefix debug_param (b ∷ bs) =
      rw (concat-batch_list client prefix debug_param bs)
        (sym (batch_list-append client prefix debug_param b (concat bs)))

  -- With an executor that loses and adds nothing: the list is returned, it holds in some order what
  -- it would if the agents were asked one after another, each once, and every file in it is one of
  -- an agent that was asked.
  pub get_agent_log_lists_lem :
      (executor : List (List AgentFileIndex) → List AgentFileIndex)
      → ((added : List (List AgentFileIndex)) → Permᴰ (concat added) (executor added))
      → (client : Client) (prefix debug_param : Bytes) (agents : List AgentInfo)
      → (out : List AgentFileIndex) × (get_agent_log_lists json executor client prefix debug_param
            agents
          ≡ returned out)
        × Permᴰ (batch_list json client prefix debug_param agents) out
        × All (Listed agents) out
  unfolding get_agent_log_lists scheduled Shares
  get_agent_log_lists_lem executor p client prefix debug_param agents =
      let (bs, e, c, l) = (batches-Shares agents).0 in
      let q : Permᴰ (batch_list json client prefix debug_param agents)
          (executor (map (batch_list json client prefix debug_param) bs)) =
        subst (λ b. Permᴰ b (executor (map (batch_list json client prefix debug_param) bs)))
          (concat-batch_list client prefix debug_param bs
            ∙ ap (batch_list json client prefix debug_param) c)
          (p (map (batch_list json client prefix debug_param) bs)) in
      (
        executor (map (batch_list json client prefix debug_param) bs),
        rw e refl,
        q,
        All-Permᴰ (Listed agents) q (batch_list-Listed client prefix debug_param agents),
      )
