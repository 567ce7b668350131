-- ===== src/Gateway/Handlers/Query.antt =====
-- `search` of src/gateway/gateway_handler.cpp.
use drlog_search.Base.{
  ℕ, ◌+◌, ◌%◌, ◌^◌, Bool, true, false, not, ◌||◌, ◌&&◌, Option, none, some, List, [], ◌∷◌, ◌++◌,
  Bytes, codes, ◌==◌, ltb, if◌then◌else◌, is_empty, select, eqb,
}
use drlog_search.Util.Url.{url_decode}
use drlog_search.Http.{
  Outcome, called, returned, stuck, ◌>>=◌, is_post, Request, Response, caught, packed,
}
use drlog_search.Gateway.Agents.{AgentInfo, Agents, get_active_agents}
use drlog_search.Gateway.Listing.{AgentFileIndex, get_agent_log_lists}
use drlog_search.Gateway.Dispatch.{Records, get_agent_search}
use drlog_search.Gateway.Handlers.{Host, refused, answered}

module _ (host : Host) where
  open host use {json}
  open json use {Value}

  -- `contains(key)` with a test of the value.
  unfoldable pub has : (Value → Bool) → Option Value → Bool
  has test none = false
  has test (some value) = test value

  unfoldable pub is_search : Value → Bool
  unfolding has
  is_search jbody =
      has json.is_array (json.member (codes "querys") jbody)
      && has json.is_number (json.member (codes "start_time") jbody)
      && has json.is_number (json.member (codes "end_time") jbody)

  unfoldable pub get_time : Bytes → Value → Outcome ℕ
  get_time key jbody = called (json.subscript key jbody) >>= λ value. called (json.get_uint64 value)

  -- The files that `remove_if` leaves.
  unfoldable pub in_range : ℕ → ℕ → AgentFileIndex → Bool
  in_range req_start_time req_end_time index =
      not (ltb index.end_time req_start_time || ltb req_end_time index.start_time)

  unfoldable pub results : List Value → Value
  results records = json.object (
      (codes "status", json.number 0)
      ∷ (codes "error_msg", json.string [])
      ∷ (codes "records", json.array records)
      ∷ [])

  -- The records of an agent, tagged with its id.
  unfoldable pub tagged : Bytes → List Value → Outcome (List Value)
  tagged agent_id [] = returned []
  tagged agent_id (item ∷ items) = do
    item' ← called (json.subscript_assign (codes "agent") (json.string agent_id) item)
    items' ← tagged agent_id items
    returned (item' ∷ items')

  unfoldable pub records_in : Bytes → Option Value → Outcome (List Value)
  unfolding tagged
  records_in agent_id none = returned []
  records_in agent_id (some records) =
      if json.is_array records then tagged agent_id (json.elements records) else returned []

  -- `!jfm["status"].is_number() || jfm["status"].get<int>() != 0`
  unfoldable pub has_failed : Value → Outcome Bool
  has_failed status =
      if json.is_number status
      then (called (json.get_int status) >>= λ n. returned (not (n == 0)))
      else returned true

  unfoldable pub parsed_records : Bytes → Option Value → Outcome (List Value)
  unfolding records_in has_failed
  parsed_records agent_id none = returned []
  parsed_records agent_id (some jfm) = do
    status ← called (json.subscript (codes "status") jfm)
    failed ← has_failed status
    if failed then returned [] else records_in agent_id (json.member (codes "records") jfm)

  -- The loop over `agent_records`.
  unfoldable pub merge : Records → Outcome (List Value)
  unfolding parsed_records
  merge [] = returned []
  merge ((agent_id, body) ∷ agent_records) = do
    records ← parsed_records agent_id (json.parse body)
    later ← merge agent_records
    returned (records ++ later)

  unfoldable pub found : Request → Response → List Value → Outcome Response
  unfolding packed results
  found req res records = called (json.dump (results records)) >>= λ res_body_j.
      (let (body, content_encoding) = packed host.zlib res_body_j req.accept_encoding in
        returned (record res {
          body = body;
          content_encoding =
              if eqb content_encoding (codes "gzip")
              then content_encoding
              else res.content_encoding;
          content_type = codes "application/json";
          is_prepared = true;
        }))

  -- The pattern of the bits of an `int64_t` as a number that grows as it does.
  unfoldable pub by_sign : ℕ → ℕ
  by_sign n = (n + 2 ^ 63) % 2 ^ 64

  -- `get<int64_t>()` of a start time behind the tests for it.
  unfoldable pub start_of : Option Value → Outcome ℕ
  start_of none = stuck
  start_of (some start_time) = called (json.get_int64 start_time)

  -- The order of the records: `stuck` would be an access to a missing key.
  unfoldable pub less_start : Value → Value → Outcome Bool
  unfolding has start_of by_sign
  less_start a b =
      let a_start = json.member (codes "start_time") a in
      let b_start = json.member (codes "start_time") b in
      if not (has json.is_number a_start)
      then returned true
      else if not (has json.is_number b_start)
      then returned false
      else (start_of a_start >>= λ x.
          start_of b_start >>= λ y. returned (ltb (by_sign x) (by_sign y)))

  unfoldable pub search_kept :
      Request → Response → Bytes → Value → List AgentInfo → List AgentFileIndex → Outcome Response
  unfolding answered results found merge get_agent_search less_start
  search_kept req res prefix jbody active [] = answered host res (results [])
  search_kept req res prefix jbody active (index ∷ indexes) = do
    agent_records ←
        get_agent_search json host.zlib host.fuel host.sort host.search_executor host.client prefix
          jbody (req.param (codes "debug")) active (index ∷ indexes)
    records ← merge agent_records
    sorted ← host.sort_records less_start records
    found req res sorted

  unfoldable pub search_in :
      Request → Response → Bytes → Value → List AgentInfo → List AgentFileIndex → Outcome Response
  unfolding in_range search_kept get_time
  search_in req res prefix jbody active indexes = do
    req_start_time ← get_time (codes "start_time") jbody
    req_end_time ← get_time (codes "end_time") jbody
    search_kept req res prefix jbody active (select (in_range req_start_time req_end_time) indexes)

  unfoldable pub search_valid : ℕ → Request → Response → Agents → Bytes → Value → Outcome Response
  unfolding refused search_in get_agent_log_lists get_active_agents
  search_valid now req res agents prefix jbody =
      let active = get_active_agents now agents in
      if is_empty active
      then returned (refused res 503)
      else (get_agent_log_lists json host.list_executor host.client prefix
            (req.param (codes "debug")) active
          >>= λ indexes. search_in req res prefix jbody active indexes)

  unfoldable pub search_parsed :
      ℕ → Request → Response → Agents → Bytes → Option Value → Outcome Response
  unfolding refused search_valid is_search
  search_parsed now req res agents prefix none = returned (refused res 400)
  search_parsed now req res agents prefix (some jbody) =
      if is_search jbody
      then search_valid now req res agents prefix jbody
      else returned (refused res 400)

  unfoldable pub search : ℕ → Request → Response → Agents → Option Response
  unfolding caught refused search_parsed
  search now req res agents =
      let prefix = url_decode host.junk (req.param (codes "prefix")) in
      caught res (
        if not (is_post req.verb)
        then returned (refused res 405)
        else if is_empty prefix
        then returned (refused res 400)
        else search_parsed now req res agents prefix (json.parse req.body))
