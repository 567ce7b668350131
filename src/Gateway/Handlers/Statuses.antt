-- ===== src/Gateway/Handlers/Statuses.antt =====
-- The statuses of `search` of src/gateway/gateway_handler.cpp.
use drlog_search.Base.{
  ℕ, Bool, true, false, not, Option, none, some, List, [], ◌∷◌, Bytes, codes, if◌then◌else◌,
  is_empty, ◌≡◌, refl, ◌⊎◌, inl, inr, Bool-cases, select, subst,
}
use drlog_search.Util.Url.{url_decode}
use drlog_search.Http.{
  Outcome, called, returned, thrown, stuck, ◌>>=◌, Returns, Returns-bind, is_post, Request,
  Response, caught,
}
use drlog_search.Gateway.Agents.{AgentInfo, Agents, get_active_agents}
use drlog_search.Gateway.Agents.Lifetime.{Registered}
use drlog_search.Gateway.Listing.{AgentFileIndex, get_agent_log_lists}
use drlog_search.Gateway.Dispatch.{get_agent_search}
use drlog_search.Gateway.Handlers.{Host, refused, answered}
use drlog_search.Gateway.Handlers.Query.{
  get_time, in_range, is_search, results, merge, found, less_start, search_kept, search_in,
  search_valid, search_parsed, search,
}
use drlog_search.Gateway.Handlers.Total.{Sound, RepliesTimed, search-answers}

-- A prepared JSON answer, whose status is 200 or that of the response as it came.
pub JsonAnswer : Response → Response → Type 0
JsonAnswer res r =
    (r.content_type ≡ codes "application/json")
    × (r.is_prepared ≡ true)
    × ((r.result ≡ 200) ⊎ (r.result ≡ res.result))

-- The status of the first condition that holds.
abbrev pub first_of : List (Bool × ℕ) → Option ℕ
first_of [] = none
first_of ((true, status) ∷ checks) = some status
first_of ((false, status) ∷ checks) = first_of checks

-- What an answer is, where a check refuses with a status, and where none does.
abbrev pub Meets : Response → Option ℕ → Response → Type 0
Meets res (some status) r = r ≡ record res { result = status }
Meets res none r = (r ≡ record res { result = 500 }) ⊎ JsonAnswer res r

abbrev pub is_search_body : (host : Host) → Option (host.json.Value) → Bool
is_search_body host none = false
is_search_body host (some jbody) = is_search host jbody

abbrev Verdict : Response → Option ℕ → Outcome Response → Type 0
Verdict res (some status) o = o ≡ returned (refused res status)
Verdict res none o = Returns (JsonAnswer res) o

Verdict-if :
    (res : Response) (refuses : Bool) (status : ℕ) (checks : List (Bool × ℕ)) (o : Outcome Response)
    → Verdict res (first_of checks) o
    → Verdict res
        (first_of ((refuses, status) ∷ checks))
        (if refuses then returned (refused res status) else o)
Verdict-if res true status checks o h = refl
Verdict-if res false status checks o h = h

caught-Returns :
    (res : Response) (o : Outcome Response) (r : Response)
    → caught res o ≡ some r
    → Returns (JsonAnswer res) o
    → Meets res none r
unfolding caught
caught-Returns res (returned s) r e h = let is : s ≡ r = cc in inr (subst (JsonAnswer res) is h)
caught-Returns res thrown r e h = inl cc
caught-Returns res stuck r e h = cc

caught-Meets :
    (res : Response) (verdict : Option ℕ) (o : Outcome Response) (r : Response)
    → caught res o ≡ some r
    → Verdict res verdict o
    → Meets res verdict r
unfolding caught refused
caught-Meets res none o r e h = caught-Returns res o r e h
caught-Meets res (some status) o r e h =
    let is : caught res o ≡ some (record res { result = status }) = rw h refl in cc

module _ (host : Host) where
  open host use {json}
  open json use {Value}

  answered-Returns :
      (res : Response) (jbody : Value) → Returns (JsonAnswer res) (answered host res jbody)
  unfolding answered JsonAnswer
  answered-Returns res jbody =
      Returns-bind (JsonAnswer res) (called (json.dump jbody)) _ (λ body. (refl, refl, inl refl))

  search_kept-Returns :
      (req : Request) (res : Response) (prefix : Bytes) (jbody : Value) (agents : List AgentInfo)
      (indexes : List AgentFileIndex)
      → Returns (JsonAnswer res) (search_kept host req res prefix jbody agents indexes)
  unfolding search_kept found JsonAnswer
  search_kept-Returns req res prefix jbody agents [] = answered-Returns res (results host [])
  search_kept-Returns req res prefix jbody agents (index ∷ indexes) =
      let P = JsonAnswer res in
      Returns-bind P
        (get_agent_search json host.zlib host.fuel host.sort host.search_executor host.client prefix
          jbody (req.param (codes "debug")) agents (index ∷ indexes))
        (λ agent_records. merge host agent_records >>= λ records.
          host.sort_records (less_start host) records >>= λ sorted. found host req res sorted)
        (λ agent_records.
          Returns-bind P (merge host agent_records)
            (λ records.
              host.sort_records (less_start host) records >>= λ sorted. found host req res sorted)
            (λ records.
              Returns-bind P (host.sort_records (less_start host) records)
                (λ sorted. found host req res sorted)
                (λ sorted.
                  Returns-bind P (called (json.dump (results host sorted))) _
                    (λ body. (refl, refl, inr refl)))))

  search_in-Returns :
      (req : Request) (res : Response) (prefix : Bytes) (jbody : Value) (agents : List AgentInfo)
      (indexes : List AgentFileIndex)
      → Returns (JsonAnswer res) (search_in host req res prefix jbody agents indexes)
  unfolding search_in
  search_in-Returns req res prefix jbody agents indexes =
      let P = JsonAnswer res in
      let kept = search_kept host req res prefix jbody agents in
      Returns-bind P (get_time host (codes "start_time") jbody)
        (λ start. get_time host (codes "end_time") jbody >>= λ end.
          kept (select (in_range host start end) indexes))
        (λ start.
          Returns-bind P (get_time host (codes "end_time") jbody)
            (λ end. kept (select (in_range host start end) indexes))
            (λ end. search_kept-Returns req res prefix jbody agents _))

-- The checks of a search, in their order.
abbrev pub refusal : Host → ℕ → Request → Agents → Option ℕ
refusal host now req agents = first_of (
    (not (is_post req.verb), 405)
    ∷ (is_empty (url_decode host.junk (req.param (codes "prefix"))), 400)
    ∷ (not (is_search_body host (host.json.parse req.body)), 400)
    ∷ (is_empty (get_active_agents now agents), 503)
    ∷ [])

module _ (host : Host) (now : ℕ) (req : Request) (res : Response) (agents : Agents) where
  open host use {json}
  open json use {Value}

  search_valid-Verdict :
      (prefix : Bytes) (jbody : Value)
      → Verdict res
          (first_of ((is_empty (get_active_agents now agents), 503) ∷ []))
          (search_valid host now req res agents prefix jbody)
  unfolding search_valid
  search_valid-Verdict prefix jbody =
      let active = get_active_agents now agents in
      let lists =
        get_agent_log_lists json host.list_executor host.client prefix (req.param (codes "debug"))
          active in
      let next : List AgentFileIndex → Outcome Response =
        λ indexes. search_in host req res prefix jbody active indexes in
      Verdict-if res (is_empty active) 503 [] (lists >>= next) (
        Returns-bind (JsonAnswer res) lists next
          (search_in-Returns host req res prefix jbody active))

  search_parsed-Verdict :
      (prefix : Bytes) (o : Option Value)
      → Verdict res
          (first_of (
            (not (is_search_body host o), 400)
            ∷ (is_empty (get_active_agents now agents), 503)
            ∷ []))
          (search_parsed host now req res agents prefix o)
  unfolding search_parsed
  search_parsed-Verdict prefix none = refl
  search_parsed-Verdict prefix (some jbody) = elim (Bool-cases (is_search host jbody)) [
    | inl y ↦ rw y (search_valid-Verdict prefix jbody)
    | inr n ↦ rw n refl
  ]

  -- In a table of the gateway, where the libraries do what they promise, and what the agents reply
  -- is unpacked and gives each record a number as its start time: a search is answered. It
  -- is refused with the status of the first check that fails (405 if it is not a POST, 400 if it
  -- has no prefix or no body of a search, 503 if no agent is active), and otherwise the answer is a
  -- 500, after an exception, or a prepared JSON text; a refusal and a 500 change nothing of the
  -- response but the status.
  pub search-Meets :
      Sound host
      → RepliesTimed host
      → Registered agents
      → (r : Response) × (search host now req res agents ≡ some r)
        × Meets res (refusal host now req agents) r
  unfolding search
  search-Meets sound timed registered =
      let (answer, e) = search-answers host sound timed now req res agents registered in
      let prefix = url_decode host.junk (req.param (codes "prefix")) in
      let parsed = search_parsed host now req res agents prefix (json.parse req.body) in
      (
        answer,
        e,
        caught-Meets res (refusal host now req agents) _ answer e (
            Verdict-if res (not (is_post req.verb)) 405 _ _ (
              Verdict-if res (is_empty prefix) 400 _ parsed
                (search_parsed-Verdict prefix (json.parse req.body)))),
      )
