-- ===== src/Gateway/Dispatch/Order.antt =====
-- The records of a search do not depend on the order in which the coroutines end
-- (`get_agent_search` of src/gateway/gateway_handler.cpp).
use drlog_search.Base.{
  ℕ, true, some, List, [], ◌∷◌, Bytes, codes, ◌==◌, ◌≡◌, refl, ap, inl, inr, ◌≢◌, All, Bool-cases,
  Permᴰ,
}
use drlog_search.Json.{Json}
use drlog_search.Table.{less, Above, Sorted, assign}
use drlog_search.Table.Order.{assign-Sorted_eq}
use drlog_search.Util.Gzip.{Zlib}
use drlog_search.Http.{Outcome, called, Returns, returned, thrown, stuck, ◌>>=◌, Reply, Client}
use drlog_search.Gateway.Agents.{AgentInfo}
use drlog_search.Gateway.Batches.{concat}
use drlog_search.Gateway.Listing.{AgentFileIndex, agent_url}
use drlog_search.Gateway.Dispatch.{
  Task, Records, search_body, body_of, record_of, no_record, run_task, run_tasks, run_search,
  search_tasks, get_agent_search,
}
use drlog_search.Gateway.Dispatch.Groups.{Ascending}
use drlog_search.Gateway.Dispatch.Tasks.{by_agent, Listed, search_tasks-Dispatched}

-- At most one record, of an agent.
data OneOf (agent_id : Bytes) : Outcome Records → Type 0 where
  gives : (body : Bytes) → OneOf agent_id (returned ((agent_id, body) ∷ []))
  gives_none : OneOf agent_id (returned [])
  throws : OneOf agent_id thrown
  sticks : OneOf agent_id stuck

packed-OneOf :
    (agent_id : Bytes) (body : Outcome Bytes)
    → OneOf agent_id (body >>= λ b. returned ((agent_id, b) ∷ []))
packed-OneOf agent_id (returned b) = gives b
packed-OneOf agent_id thrown = throws
packed-OneOf agent_id stuck = sticks

record_of-OneOf :
    (zlib : Zlib) (fuel : ℕ) (agent_id : Bytes) (reply : Reply)
    → OneOf agent_id (record_of zlib fuel agent_id reply)
unfolding record_of
record_of-OneOf zlib fuel agent_id reply = elim (Bool-cases (reply.status == 200)) [
  | inl y ↦ rw y (packed-OneOf agent_id (body_of zlib fuel reply.body reply.content_encoding))
  | inr n ↦ rw n gives_none
]

bind-OneOf {ℓ} :
    {A : Type ℓ} (agent_id : Bytes) (m : Outcome A) (f : A → Outcome Records)
    → ((a : A) → OneOf agent_id (f a))
    → OneOf agent_id (m >>= f)
bind-OneOf agent_id (returned a) f h = h a
bind-OneOf agent_id thrown f h = throws
bind-OneOf agent_id stuck f h = sticks

no_record-OneOf :
    (agent_id : Bytes) (o : Outcome Records) → OneOf agent_id o → OneOf agent_id (no_record o)
unfolding no_record
no_record-OneOf agent_id _ (gives body) = gives body
no_record-OneOf agent_id _ gives_none = gives_none
no_record-OneOf agent_id _ throws = gives_none
no_record-OneOf agent_id _ sticks = sticks

run_task-OneOf :
    (json : Json) (zlib : Zlib) (fuel : ℕ) (client : Client) (prefix debug_param : Bytes)
    (jreq_body : json.Value) (task : Task)
    → OneOf task.agent_id (run_task json zlib fuel client prefix debug_param jreq_body task)
unfolding run_task
run_task-OneOf json zlib fuel client prefix debug_param jreq_body task =
    let url = agent_url (codes "/log/search") task.address prefix debug_param in
    no_record-OneOf task.agent_id _ (
      bind-OneOf task.agent_id (search_body json jreq_body task.paths) _ (λ body.
        bind-OneOf task.agent_id (called (client.post url body)) (record_of zlib fuel task.agent_id)
          (record_of-OneOf zlib fuel task.agent_id)))

add-Above :
    (low agent_id : Bytes) (o : Outcome Records) (later : Outcome (List Records))
    → OneOf agent_id o
    → less low agent_id ≡ true
    → Returns (λ added. Above low (concat added)) later
    → Returns
        (λ added. Above low (concat added))
        (o >>= λ first. later >>= λ rest. returned (first ∷ rest))
add-Above low agent_id _ (returned rest) (gives body) l h = (l, h)
add-Above low agent_id _ (returned rest) gives_none l h = h
add-Above low agent_id _ thrown (gives body) l h = tt
add-Above low agent_id _ stuck (gives body) l h = tt
add-Above low agent_id _ thrown gives_none l h = tt
add-Above low agent_id _ stuck gives_none l h = tt
add-Above low agent_id _ _ throws l h = tt
add-Above low agent_id _ _ sticks l h = tt

add-Sorted :
    (agent_id : Bytes) (o : Outcome Records) (later : Outcome (List Records))
    → OneOf agent_id o
    → Returns (λ added. Above agent_id (concat added)) later
    → Returns (λ added. Sorted (concat added)) later
    → Returns
        (λ added. Sorted (concat added))
        (o >>= λ first. later >>= λ rest. returned (first ∷ rest))
add-Sorted agent_id _ (returned rest) (gives body) l h = (l, h)
add-Sorted agent_id _ (returned rest) gives_none l h = h
add-Sorted agent_id _ thrown (gives body) l h = tt
add-Sorted agent_id _ stuck (gives body) l h = tt
add-Sorted agent_id _ thrown gives_none l h = tt
add-Sorted agent_id _ stuck gives_none l h = tt
add-Sorted agent_id _ _ throws l h = tt
add-Sorted agent_id _ _ sticks l h = tt

assign-any_order :
    (executor : List Records → Records)
    → ((added : List Records) → Permᴰ (concat added) (executor added))
    → (o : Outcome (List Records)) → Returns (λ added. Sorted (concat added)) o
    → (o >>= λ added. returned (assign [] (executor added)))
      ≡ (o >>= λ added. returned (concat added))
assign-any_order executor p (returned added) h =
    ap returned (assign-Sorted_eq (concat added) (executor added) h (p added))
assign-any_order executor p thrown h = refl
assign-any_order executor p stuck h = refl

module _ (json : Json) (zlib : Zlib) (fuel : ℕ) (client : Client) (prefix debug_param : Bytes)
    (jreq_body : json.Value) where
  run_tasks-Above :
      (low : Bytes) (tasks : List Task)
      → Above low (by_agent tasks)
      → Returns
          (λ added. Above low (concat added))
          (run_tasks json zlib fuel client prefix debug_param jreq_body tasks)
  unfolding run_tasks
  run_tasks-Above low [] h = tt
  run_tasks-Above low (task ∷ tasks) h =
      add-Above low task.agent_id _ _
        (run_task-OneOf json zlib fuel client prefix debug_param jreq_body task) h.0
        (run_tasks-Above low tasks h.1)

  run_tasks-Sorted :
      (tasks : List Task)
      → Sorted (by_agent tasks)
      → Returns
          (λ added. Sorted (concat added))
          (run_tasks json zlib fuel client prefix debug_param jreq_body tasks)
  unfolding run_tasks
  run_tasks-Sorted [] h = tt
  run_tasks-Sorted (task ∷ tasks) h =
      add-Sorted task.agent_id _ _
        (run_task-OneOf json zlib fuel client prefix debug_param jreq_body task)
        (run_tasks-Above task.agent_id tasks h.0) (run_tasks-Sorted tasks h.1)

  -- With a sort that orders by the id, where each file is one of an agent of the list and no id is
  -- empty: in whatever order the coroutines end, the records are what the requests give when they
  -- are made one after another, in the order of the ids.
  pub get_agent_search-run_tasks :
      (sort : List AgentFileIndex → List AgentFileIndex)
      → ((indexes : List AgentFileIndex) → Permᴰ indexes (sort indexes))
      → ((indexes : List AgentFileIndex) → Ascending (sort indexes))
      → (executor : List Records → Records)
      → ((added : List Records) → Permᴰ (concat added) (executor added))
      → (agents : List AgentInfo) (indexes : List AgentFileIndex) → All (Listed agents) indexes
      → All (λ index. index.agent_id ≢ []) indexes
      → (tasks : List Task) × (search_tasks sort agents indexes ≡ some tasks)
        × (get_agent_search json zlib fuel sort executor client prefix jreq_body debug_param agents
              indexes
            ≡ (run_tasks json zlib fuel client prefix debug_param jreq_body tasks >>= λ added.
                returned (concat added)))
  unfolding get_agent_search run_search
  get_agent_search-run_tasks sort p s executor q agents indexes known ids =
      let (tasks, e, d) = search_tasks-Dispatched sort p s agents indexes known ids in
      (
        tasks,
        e,
        rw e (
            assign-any_order executor q
              (run_tasks json zlib fuel client prefix debug_param jreq_body tasks)
              (run_tasks-Sorted tasks d.once)),
      )
