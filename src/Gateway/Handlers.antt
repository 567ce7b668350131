-- ===== src/Gateway/Handlers.antt =====
-- The request handlers of src/gateway/gateway_handler.cpp; `search` is in Query. The time is an
-- argument, and `none` is what has no result: undefined behaviour, or the end of the fuel of the
-- model.
pub mod Query
pub mod Merging
pub mod Sorting
pub mod Total
pub mod Statuses
use drlog_search.Base.{
  ℕ, ◌+◌, Bool, true, false, not, ◌||◌, ◌&&◌, Option, none, some, List, [], ◌∷◌, ◌++◌, Bytes, codes,
  ◌==◌, ltb, if◌then◌else◌, is_empty, length, drop, select, map, eqb,
}
use drlog_search.Json.{Json}
use drlog_search.Util.Url.{url_decode}
use drlog_search.Util.Gzip.{Zlib, compress_body}
use drlog_search.Http.{
  Outcome, called, returned, thrown, stuck, ◌>>=◌, is_get, is_post, Request, Response, caught,
  Client,
}
use drlog_search.Gateway.Agents.{AgentInfo, Agents, add_agent, get_active_agents}
use drlog_search.Gateway.Listing.{AgentFileIndex, get_agent_log_lists}
use drlog_search.Gateway.Dispatch.{Records, get_agent_search}

-- What the handlers run on: the libraries, the executor and the sorts of the standard library, each
-- as the client of it knows it; `junk` is an uninitialised variable of `url_decode`.
pub record Host : Type 1 where
  pub json : Json
  pub zlib : Zlib
  pub fuel : ℕ
  pub junk : ℕ
  pub client : Client
  pub read_file : Bytes → Option Bytes
  pub list_executor : List (List AgentFileIndex) → List AgentFileIndex
  pub search_executor : List Records → Records
  pub sort : List AgentFileIndex → List AgentFileIndex
  pub sort_records :
      (json.Value → json.Value → Outcome Bool) → List (json.Value) → Outcome (List (json.Value))

unfoldable pub hello : Response → Response
hello res = record res {
  body = codes "Hello!!!";
  content_type = codes "text/plain";
  result = 200;
  is_prepared = true;
}

unfoldable pub refused : Response → ℕ → Response
refused res status = record res { result = status }

unfoldable pub announce : ℕ → ℕ → Request → Response → Agents → Response × Agents
unfolding refused add_agent
announce junk now req res agents =
    let agent_addr = req.param (codes "agent_addr") in
    if not (is_get req.verb)
    then (refused res 405, agents)
    else if is_empty agent_addr
    then (refused res 400, agents)
    else (refused res 200, add_agent now (url_decode junk agent_addr) agents)

-- A file that is served, with the type of content if it is set.
unfoldable pub served : Response → Option Bytes → Option Bytes → Response
unfolding refused
served res file_type none = refused res 404
served res none (some content) = record res { body = content; result = 200; is_prepared = true }
served res (some content_type) (some content) = record res {
  body = content;
  content_type = content_type;
  result = 200;
  is_prepared = true;
}

module _ (host : Host) where
  open host use {json}
  open json use {Value}

  unfoldable pub web : Bytes → Request → Response → Response
  unfolding served refused
  web web_path req res =
      if not (is_get req.verb)
      then refused res 405
      else if ltb (length req.prefix_path) (length req.path)
      then served res none (host.read_file (web_path ++ drop (length req.prefix_path) req.path))
      else if is_empty (url_decode host.junk (req.param (codes "prefix")))
      then refused res 400
      else served res (some (codes "text/html"))
          (host.read_file (web_path ++ codes "drlog-search.html"))

  unfoldable pub agent_item : AgentInfo → Value
  agent_item agent = json.object (
      (codes "agent_id", json.string agent.agent_id)
      ∷ (codes "address", json.string agent.address)
      ∷ (codes "last_announce", json.number agent.last_announce)
      ∷ [])

  -- The end of a handler that answers with a JSON text.
  unfoldable pub answered : Response → Value → Outcome Response
  answered res jbody = called (json.dump jbody) >>= λ body. returned (record res {
    body = body;
    content_type = codes "application/json";
    result = 200;
    is_prepared = true;
  })

  unfoldable pub agent_list : ℕ → Request → Response → Agents → Option Response
  unfolding caught refused answered agent_item get_active_agents
  agent_list now req res agents = caught res (
      if not (is_get req.verb)
      then returned (refused res 405)
      else answered res (json.array (map agent_item (get_active_agents now agents))))

  unfoldable pub index_item : AgentFileIndex → Value
  index_item fi = json.object (
      (codes "path", json.string fi.path)
      ∷ (codes "size", json.number fi.size)
      ∷ (codes "mtime", json.number fi.mtime)
      ∷ (codes "etag", json.string fi.etag)
      ∷ (codes "start_time", json.number fi.start_time)
      ∷ (codes "end_time", json.number fi.end_time)
      ∷ (codes "agent_id", json.string fi.agent_id)
      ∷ [])

  unfoldable pub listed : Response → List AgentFileIndex → Outcome Response
  unfolding refused answered index_item
  listed res out_indexes =
      if is_empty out_indexes
      then returned (refused res 404)
      else answered res (json.array (map index_item out_indexes))

  unfoldable pub list : ℕ → Request → Response → Agents → Option Response
  unfolding caught refused listed get_agent_log_lists get_active_agents
  list now req res agents =
      let prefix = url_decode host.junk (req.param (codes "prefix")) in
      let active = get_active_agents now agents in
      caught res (
        if not (is_get req.verb)
        then returned (refused res 405)
        else if is_empty prefix
        then returned (refused res 400)
        else if is_empty active
        then returned (refused res 503)
        else (get_agent_log_lists json host.list_executor host.client prefix
              (req.param (codes "debug")) active
            >>= λ out_indexes. listed res out_indexes))
