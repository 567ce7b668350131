-- ===== src/Gateway/Listing.antt =====
-- `get_agent_log_lists` of src/gateway/gateway_handler.cpp. The executor is a parameter: it chooses
-- the order in which the coroutines append to the list that they share.
pub mod Exact
use drlog_search.Base.{
  ℕ, ◌+◌, ◌-◌, ◌^◌, Bool, true, false, Option, none, some, List, [], ◌∷◌, ◌++◌, Bytes, codes, ◌==◌,
  ltb, if◌then◌else◌, is_empty, not, map,
}
use drlog_search.Json.{Json}
use drlog_search.Http.{Outcome, called, returned, thrown, stuck, ◌>>=◌, Reply, Client}
use drlog_search.Gateway.Agents.{AgentInfo}
use drlog_search.Gateway.Batches.{batches, concat}

-- `agent_file_index`
pub record AgentFileIndex : Type 0 where
  pub path : Bytes
  pub size : ℕ
  pub mtime : ℕ
  pub etag : Bytes
  pub start_time : ℕ
  pub end_time : ℕ
  pub agent_id : Bytes

-- An `int`, by the pattern of its 32 bits, as a `uint64_t`.
unfoldable pub to_uint64 : ℕ → ℕ
to_uint64 n = if ltb n (2 ^ 31) then n else n + (2 ^ 64 - 2 ^ 32)

unfoldable pub agent_url : Bytes → Bytes → Bytes → Bytes → Bytes
agent_url route addr prefix debug_param =
    let url = codes "http://" ++ addr ++ route ++ codes "?prefix=" ++ prefix in
    if is_empty debug_param then url else url ++ codes "&debug=" ++ debug_param

module _ (json : Json) where
  open json use {Value}

  unfoldable pub index_of : Bytes → Value → Outcome AgentFileIndex
  unfolding to_uint64
  index_of agent_id item = do
    path ← called (json.value_string (codes "path") [] item)
    size ← called (json.value_int (codes "size") 0 item)
    mtime ← called (json.value_int (codes "mtime") 0 item)
    etag ← called (json.value_string (codes "etag") [] item)
    start_time ← called (json.value_int (codes "start_time") 0 item)
    end_time ← called (json.value_int (codes "end_time") 0 item)
    returned (record {
      path = path;
      size = to_uint64 size;
      mtime = to_uint64 mtime;
      etag = etag;
      start_time = to_uint64 start_time;
      end_time = to_uint64 end_time;
      agent_id = agent_id;
    })

  -- The loop over the items; an exception is caught behind it, and what was appended stays.
  unfoldable pub push_index : Outcome AgentFileIndex → List AgentFileIndex → List AgentFileIndex
  push_index (returned index) later = index ∷ later
  push_index _ later = []

  unfoldable pub indexes_of : Bytes → List Value → List AgentFileIndex
  unfolding push_index index_of
  indexes_of agent_id [] = []
  indexes_of agent_id (item ∷ items) =
      push_index (index_of agent_id item) (indexes_of agent_id items)

  unfoldable pub parsed_list : Bytes → Option Value → List AgentFileIndex
  unfolding indexes_of
  parsed_list agent_id none = []
  parsed_list agent_id (some jbody) =
      if json.is_array jbody then indexes_of agent_id (json.elements jbody) else []

  unfoldable pub replied_list : Bytes → Option Reply → List AgentFileIndex
  unfolding parsed_list
  replied_list agent_id (some reply) =
      if reply.status == 200 then parsed_list agent_id (json.parse reply.body) else []
  replied_list agent_id none = []

  -- What the loop of a coroutine appends for an agent.
  unfoldable pub agent_list_of : Client → Bytes → Bytes → AgentInfo → List AgentFileIndex
  unfolding replied_list agent_url
  agent_list_of client prefix debug_param agent =
      replied_list agent.agent_id
        (client.get (agent_url (codes "/log/list") agent.address prefix debug_param))

  -- What a coroutine appends.
  unfoldable pub batch_list : Client → Bytes → Bytes → List AgentInfo → List AgentFileIndex
  unfolding agent_list_of
  batch_list client prefix debug_param [] = []
  batch_list client prefix debug_param (agent ∷ agents) =
      agent_list_of client prefix debug_param agent ++ batch_list client prefix debug_param agents

  unfoldable pub scheduled :
      (List (List AgentFileIndex) → List AgentFileIndex)
      → (List AgentInfo → List AgentFileIndex)
      → Option (List (List AgentInfo))
      → Outcome (List AgentFileIndex)
  scheduled executor work none = stuck
  scheduled executor work (some bs) = returned (executor (map work bs))

  unfoldable pub get_agent_log_lists :
      (List (List AgentFileIndex) → List AgentFileIndex)
      → Client
      → Bytes
      → Bytes
      → List AgentInfo
      → Outcome (List AgentFileIndex)
  unfolding scheduled batch_list batches
  get_agent_log_lists executor client prefix debug_param agents =
      scheduled executor (batch_list client prefix debug_param) (batches 10 agents)
