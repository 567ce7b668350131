-- ===== src/Gateway/Dispatch.antt =====
-- `get_agent_search` of src/gateway/gateway_handler.cpp. `std::sort` is a parameter, since the
-- order of files of one agent is not determined, and so is the order in which the coroutines end.
pub mod Groups
pub mod Tasks
pub mod Order
pub mod Replies
use drlog_search.Base.{
  ℕ, ◌+◌, Bool, true, false, Option, none, some, List, [], ◌∷◌, ◌++◌, Bytes, codes, ◌==◌,
  if◌then◌else◌, eqb, map,
}
use drlog_search.Json.{Json}
use drlog_search.Table.{lookup, insert, assign}
use drlog_search.Util.Gzip.{Zlib, decompress_body}
use drlog_search.Http.{Outcome, called, returned, thrown, stuck, ◌>>=◌, Reply, Client}
use drlog_search.Gateway.Agents.{AgentInfo, Agents}
use drlog_search.Gateway.Batches.{batches, concat}
use drlog_search.Gateway.Listing.{AgentFileIndex, agent_url}

unfoldable pub push_behind :
    List AgentFileIndex → Option (List (List AgentFileIndex)) → Option (List (List AgentFileIndex))
push_behind group none = none
push_behind group (some groups) = some (group ∷ groups)

-- `agent_indexes.back().push_back(index)`; `none` is the back of an empty vector.
unfoldable pub push_to_back :
    AgentFileIndex → List (List AgentFileIndex) → Option (List (List AgentFileIndex))
unfolding push_behind
push_to_back index [] = none
push_to_back index (group ∷ []) = some ((group ++ index ∷ []) ∷ [])
push_to_back index (group ∷ next ∷ groups) = push_behind group (push_to_back index (next ∷ groups))

-- The body of the loop that groups by agent: `last_agent_id` and `agent_indexes`.
unfoldable pub group_step :
    Bytes
    → List (List AgentFileIndex)
    → AgentFileIndex
    → Bytes × Option (List (List AgentFileIndex))
unfolding push_to_back
group_step last_agent_id agent_indexes index =
    if eqb index.agent_id last_agent_id
    then (last_agent_id, push_to_back index agent_indexes)
    else (index.agent_id, push_to_back index (agent_indexes ++ [] ∷ []))

unfoldable pub group_loop :
    Bytes × Option (List (List AgentFileIndex))
    → List AgentFileIndex
    → Option (List (List AgentFileIndex))
unfolding group_step
group_loop (last_agent_id, agent_indexes) [] = agent_indexes
group_loop (last_agent_id, none) (index ∷ indexes) = none
group_loop (last_agent_id, some agent_indexes) (index ∷ indexes) =
    group_loop (group_step last_agent_id agent_indexes index) indexes

-- `agent_map`
unfoldable pub map_agents : Agents → List AgentInfo → Agents
map_agents agent_map [] = agent_map
map_agents agent_map (agent ∷ agents) = map_agents (insert agent.agent_id agent agent_map) agents

-- What a coroutine asks of an agent.
pub record Task : Type 0 where
  pub agent_id : Bytes
  pub address : Bytes
  pub paths : List Bytes

unfoldable pub paths_of : List AgentFileIndex → List Bytes
paths_of indexes = map (λ index. index.path) indexes

-- `none` is the null pointer.
unfoldable pub addressed : Bytes → List Bytes → Option AgentInfo → Option (List Task)
addressed agent_id paths none = none
addressed agent_id paths (some agent) =
    some (record { agent_id = agent_id; address = agent.address; paths = paths } ∷ [])

-- An empty group is passed over.
unfoldable pub task_of : Agents → List AgentFileIndex → Option (List Task)
unfolding addressed paths_of
task_of agent_map [] = some []
task_of agent_map (index ∷ indexes) =
    addressed index.agent_id (paths_of (index ∷ indexes)) (lookup index.agent_id agent_map)

unfoldable pub join : Option (List Task) → Option (List Task) → Option (List Task)
join (some tasks) (some later) = some (tasks ++ later)
join _ _ = none

unfoldable pub tasks_of : Agents → List (List AgentFileIndex) → Option (List Task)
unfolding task_of join
tasks_of agent_map [] = some []
tasks_of agent_map (group ∷ groups) = join (task_of agent_map group) (tasks_of agent_map groups)

unfoldable pub shared_tasks :
    Agents → Option (List (List (List AgentFileIndex))) → Option (List Task)
unfolding tasks_of
shared_tasks agent_map none = none
shared_tasks agent_map (some bs) = tasks_of agent_map (concat bs)

unfoldable pub grouped_tasks : Agents → Option (List (List AgentFileIndex)) → Option (List Task)
unfolding shared_tasks batches
grouped_tasks agent_map none = none
grouped_tasks agent_map (some agent_indexes) = shared_tasks agent_map (batches 1 agent_indexes)

-- The requests of a search, in the order in which the coroutines are spawned.
unfoldable pub search_tasks :
    (List AgentFileIndex → List AgentFileIndex)
    → List AgentInfo
    → List AgentFileIndex
    → Option (List Task)
unfolding grouped_tasks group_loop map_agents
search_tasks sort agents indexes =
    grouped_tasks (map_agents [] agents) (group_loop ([], some []) (sort indexes))

-- `agent_records`
abbrev pub Records : Type 0
Records = List (Bytes × Bytes)

unfoldable pub search_body : (json : Json) → json.Value → List Bytes → Outcome Bytes
search_body json jreq_body paths =
    called (json.subscript_assign (codes "paths") (json.array (map json.string paths)) jreq_body)
    >>= λ body. called (json.dump body)

-- The body of a reply; `stuck` is the end of the fuel of the model.
unfoldable pub unpacked : Option Bytes → Outcome Bytes
unpacked none = stuck
unpacked (some output) = returned output

unfoldable pub body_of : Zlib → ℕ → Bytes → Option Bytes → Outcome Bytes
unfolding unpacked
body_of zlib fuel body none = returned body
body_of zlib fuel body (some content_encoding) =
    unpacked (decompress_body zlib fuel body content_encoding [])

-- What a reply adds to the records.
unfoldable pub record_of : Zlib → ℕ → Bytes → Reply → Outcome Records
unfolding body_of
record_of zlib fuel agent_id reply =
    if reply.status == 200
    then body_of zlib fuel reply.body reply.content_encoding
      >>= (λ body. returned ((agent_id, body) ∷ []))
    else returned []

-- An exception adds nothing.
unfoldable pub no_record : Outcome Records → Outcome Records
no_record thrown = returned []
no_record o = o

module _ (json : Json) (zlib : Zlib) (fuel : ℕ) where
  open json use {Value}

  unfoldable pub run_task : Client → Bytes → Bytes → Value → Task → Outcome Records
  unfolding record_of search_body no_record agent_url
  run_task client prefix debug_param jreq_body task = no_record (do
    body ← search_body json jreq_body task.paths
    reply ←
        called (client.post (agent_url (codes "/log/search") task.address prefix debug_param) body)
    record_of zlib fuel task.agent_id reply)

  unfoldable pub run_tasks : Client → Bytes → Bytes → Value → List Task → Outcome (List Records)
  unfolding run_task
  run_tasks client prefix debug_param jreq_body [] = returned []
  run_tasks client prefix debug_param jreq_body (task ∷ tasks) = do
    added ← run_task client prefix debug_param jreq_body task
    later ← run_tasks client prefix debug_param jreq_body tasks
    returned (added ∷ later)

  unfoldable pub run_search :
      (List Records → Records)
      → Client
      → Bytes
      → Bytes
      → Value
      → Option (List Task)
      → Outcome Records
  unfolding run_tasks assign
  run_search executor client prefix debug_param jreq_body none = stuck
  run_search executor client prefix debug_param jreq_body (some tasks) = do
    added ← run_tasks client prefix debug_param jreq_body tasks
    returned (assign [] (executor added))

  unfoldable pub get_agent_search :
      (List AgentFileIndex → List AgentFileIndex)
      → (List Records → Records)
      → Client
      → Bytes
      → Value
      → Bytes
      → List AgentInfo
      → List AgentFileIndex
      → Outcome Records
  unfolding run_search search_tasks
  get_agent_search sort executor client prefix jreq_body debug_param agents indexes =
      run_search executor client prefix debug_param jreq_body (search_tasks sort agents indexes)
