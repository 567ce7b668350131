-- ===== src/Gateway/Handlers/Total.antt =====
-- `search` of src/gateway/gateway_handler.cpp always answers.
use drlog_search.Base.{
  ℕ, Bool, not, Option, none, some, List, [], ◌∷◌, Bytes, codes, ltb, if◌then◌else◌, is_empty, ◌≡◌,
  sym, ◌∙◌, inl, inr, ◌≢◌, All, All-map, Bool-cases, select, select-All, eqb, eqb_iff, Permᴰ, subst,
}
use drlog_search.Util.Url.{url_decode}
use drlog_search.Http.{
  Outcome, called, returned, ◌>>=◌, Answers, Answers-called, Answers-bind, Answers-then, Answers-if,
  Reply, is_post, Request, Response, caught-Answers,
}
use drlog_search.Gateway.Agents.{AgentInfo, Agents, get_active_agents}
use drlog_search.Gateway.Agents.Lifetime.{Registered}
use drlog_search.Gateway.Agents.Active.{active-ids}
use drlog_search.Gateway.Batches.{concat}
use drlog_search.Gateway.Listing.{AgentFileIndex}
use drlog_search.Gateway.Listing.Exact.{get_agent_log_lists_lem}
use drlog_search.Gateway.Dispatch.{Task, Records}
use drlog_search.Gateway.Dispatch.Groups.{Ascending}
use drlog_search.Gateway.Dispatch.Tasks.{named, Listed}
use drlog_search.Gateway.Dispatch.Replies.{Holds, Suffices, AllAdd, get_agent_search-AllAdd}
use drlog_search.Gateway.Handlers.Merging.{merge-Answers}
use drlog_search.Gateway.Handlers.Sorting.{
  HasStart, Timed, Assigns, merge-HasStart, start_key, less_start_keyed,
}
use drlog_search.Gateway.Handlers.{Host, refused, answered}
use drlog_search.Gateway.Handlers.Query.{
  get_time, in_range, is_search, results, merge, found, less_start, search_kept, search_in,
  search_valid, search_parsed, search,
}

abbrev Named : (AgentInfo → Type 0) → Bytes → Option AgentInfo → Type 0
Named P id none = Unit
Named P id (some agent) = P agent × (agent.agent_id ≡ id)

named-Named :
    (P : AgentInfo → Type 0) (id : Bytes) (found : Option AgentInfo) (agents : List AgentInfo)
    → Named P id found
    → All P agents
    → Named P id (named id found agents)
named-Named P id found [] n h = n
named-Named P id found (agent ∷ agents) n h = elim (Bool-cases (eqb id agent.agent_id)) [
  | inl y ↦ rw y (named-Named P id (some agent) agents (h.0, sym ((eqb_iff _ _).0 y)) h.1)
  | inr m ↦ rw m (named-Named P id found agents n h.1)
]

Listed-id :
    (agents : List AgentInfo) (index : AgentFileIndex)
    → All (λ agent. agent.agent_id ≢ []) agents
    → Listed agents index
    → index.agent_id ≢ []
unfolding Listed
Listed-id agents index h l e =
    let n = named-Named (λ agent. agent.agent_id ≢ []) index.agent_id none agents tt h in
    let m = subst (Named (λ agent. agent.agent_id ≢ []) index.agent_id) l.1 n in m.0 (m.1 ∙ e)

-- What the libraries, the executor and the standard library promise of what the handlers run on.
pub record Sound (host : Host) : Type 1 where
  pub list_executor_sound :
      (added : List (List AgentFileIndex)) → Permᴰ (concat added) (host.list_executor added)
  pub search_executor_sound :
      (added : List Records) → Permᴰ (concat added) (host.search_executor added)
  pub sort_permutes : (indexes : List AgentFileIndex) → Permᴰ indexes (host.sort indexes)
  pub sort_orders : (indexes : List AgentFileIndex) → Ascending (host.sort indexes)
  pub fuel_suffices : Suffices host.zlib host.fuel host.client
  pub json_assigns : Assigns host.json
  -- On elements that a comparison orders as their keys, `std::sort` gives a permutation of them.
  pub sort_records_ends :
      (less : host.json.Value → host.json.Value → Outcome Bool) (key : host.json.Value → ℕ)
      (records : List host.json.Value)
      → All (λ a. All (λ b. less a b ≡ returned (ltb (key a) (key b))) records) records
      → (sorted : List host.json.Value) × (host.sort_records less records ≡ returned sorted)
        × Permᴰ records sorted

-- Each record in a reply of an agent has a number as its start time.
abbrev pub RepliesTimed : Host → Type 0
RepliesTimed host =
    (url body : Bytes) (reply : Reply) (text : Bytes)
    → host.client.post url body ≡ some reply
    → Holds host.zlib host.fuel reply.body reply.content_encoding text
    → Timed host.json text

module _ (host : Host) (sound : Sound host) (timed : RepliesTimed host) where
  open host use {json}
  open json use {Value}

  AllAdd-Timed :
      (prefix debug_param : Bytes) (jbody : Value) (tasks : List Task) (added : List Records)
      → AllAdd json host.zlib host.fuel host.client prefix debug_param jbody tasks added
      → All (λ r. Timed json r.1) (concat added)
  AllAdd-Timed prefix debug_param jbody [] added h = rw h tt
  AllAdd-Timed prefix debug_param jbody (task ∷ tasks) [] h = absurd h
  AllAdd-Timed prefix debug_param jbody (task ∷ tasks) (records ∷ added) (inl (text, e, r), h) =
      rw e (
        timed _ r.search_text r.reply text r.replied r.contained,
        AllAdd-Timed prefix debug_param jbody tasks added h,
      )
  AllAdd-Timed prefix debug_param jbody (task ∷ tasks) (records ∷ added) (inr (e, r), h) =
      rw e (AllAdd-Timed prefix debug_param jbody tasks added h)

  sorted-Answers :
      (req : Request) (res : Response) (records : List Value)
      → All (HasStart json) records
      → Answers
          (host.sort_records (less_start host) records >>= λ sorted. found host req res sorted)
  unfolding found
  sorted-Answers req res records h =
      let (sorted, e, p) =
        sound.sort_records_ends (less_start host) (start_key host sound.json_assigns) records
          (less_start_keyed host sound.json_assigns records h) in
      rw e
        (Answers-bind (called (json.dump (results host sorted))) _ (Answers-called _) (λ body. tt))

  search_kept-Answers :
      (req : Request) (res : Response) (prefix : Bytes) (jbody : Value) (agents : List AgentInfo)
      (indexes : List AgentFileIndex)
      → All (Listed agents) indexes
      → All (λ index. index.agent_id ≢ []) indexes
      → Answers (search_kept host req res prefix jbody agents indexes)
  unfolding search_kept answered
  search_kept-Answers req res prefix jbody agents [] k i =
      Answers-bind (called (json.dump (results host []))) _ (Answers-called _) (λ body. tt)
  search_kept-Answers req res prefix jbody agents (index ∷ indexes) k i =
      let debug_param = req.param (codes "debug") in
      let (tasks, e, added, same, all) =
        get_agent_search-AllAdd json host.zlib host.fuel host.client prefix debug_param jbody
          host.sort sound.sort_permutes sound.sort_orders host.search_executor
          sound.search_executor_sound sound.fuel_suffices agents (index ∷ indexes) k i in
      rw same (
        Answers-then (All (HasStart json)) (merge host (concat added))
          (λ records.
            host.sort_records (less_start host) records >>= λ sorted. found host req res sorted)
          (merge-Answers host (concat added))
          (merge-HasStart host sound.json_assigns (concat added)
            (AllAdd-Timed prefix debug_param jbody tasks added all))
          (λ records h. sorted-Answers req res records h))

  search_in-Answers :
      (req : Request) (res : Response) (prefix : Bytes) (jbody : Value) (agents : List AgentInfo)
      (indexes : List AgentFileIndex)
      → All (Listed agents) indexes
      → All (λ index. index.agent_id ≢ []) indexes
      → Answers (search_in host req res prefix jbody agents indexes)
  unfolding search_in get_time
  search_in-Answers req res prefix jbody agents indexes k i =
      let kept = search_kept host req res prefix jbody agents in
      let time-Answers : (key : Bytes) → Answers (get_time host key jbody) = λ key.
        (Answers-bind (called (json.subscript key jbody)) (λ value. called (json.get_uint64 value))
          (Answers-called _) (λ value. Answers-called _)) in
      Answers-bind (get_time host (codes "start_time") jbody)
        (λ start. get_time host (codes "end_time") jbody >>= λ end.
          kept (select (in_range host start end) indexes))
        (time-Answers (codes "start_time"))
        (λ start.
          Answers-bind (get_time host (codes "end_time") jbody)
            (λ end. kept (select (in_range host start end) indexes))
            (time-Answers (codes "end_time"))
            (λ end.
              search_kept-Answers req res prefix jbody agents _
                (select-All (in_range host start end) (Listed agents) indexes k)
                (select-All (in_range host start end) (λ index. index.agent_id ≢ []) indexes i)))

  search_valid-Answers :
      (now : ℕ) (req : Request) (res : Response) (agents : Agents) (prefix : Bytes) (jbody : Value)
      → Registered agents
      → Answers (search_valid host now req res agents prefix jbody)
  unfolding search_valid
  search_valid-Answers now req res agents prefix jbody r =
      let active = get_active_agents now agents in
      elim (Bool-cases (is_empty active)) [
        | inl y ↦ rw y tt
        | inr n ↦
            let (out, e, p, l) =
              get_agent_log_lists_lem json host.list_executor sound.list_executor_sound host.client
                prefix (req.param (codes "debug")) active in
            rw (n, e)
              (search_in-Answers req res prefix jbody active out l (
                All-map (Listed active) (λ index. index.agent_id ≢ [])
                  (λ index. Listed-id active index (active-ids now agents r)) out l))
      ]

  search_parsed-Answers :
      (now : ℕ) (req : Request) (res : Response) (agents : Agents) (prefix : Bytes)
      (o : Option Value)
      → Registered agents
      → Answers (search_parsed host now req res agents prefix o)
  unfolding search_parsed
  search_parsed-Answers now req res agents prefix none r = tt
  search_parsed-Answers now req res agents prefix (some jbody) r =
      Answers-if (is_search host jbody) (search_valid host now req res agents prefix jbody)
        (returned (refused res 400)) (search_valid-Answers now req res agents prefix jbody r) tt

  -- In a table of the gateway, whatever the request is, a search is answered: the code takes no
  -- back of an empty vector, follows no null pointer, reads no element out of range, and sorts with
  -- a strict weak order.
  pub search-answers :
      (now : ℕ) (req : Request) (res : Response) (agents : Agents)
      → Registered agents
      → (r : Response) × (search host now req res agents ≡ some r)
  unfolding search
  search-answers now req res agents r =
      let prefix = url_decode host.junk (req.param (codes "prefix")) in
      let parsed = search_parsed host now req res agents prefix (json.parse req.body) in
      let refuse : ℕ → Outcome Response = λ status. returned (refused res status) in
      caught-Answers res _ (
        Answers-if (not (is_post req.verb)) (refuse 405)
          (if is_empty prefix then refuse 400 else parsed) tt
          (Answers-if (is_empty prefix) (refuse 400) parsed tt
            (search_parsed-Answers now req res agents prefix (json.parse req.body) r)))
