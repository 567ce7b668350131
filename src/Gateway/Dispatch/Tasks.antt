-- ===== src/Gateway/Dispatch/Tasks.antt =====
-- What `get_agent_search` (src/gateway/gateway_handler.cpp) asks of the agents.
use drlog_search.Base.{
  Option, none, some, List, [], ◌∷◌, Bytes, if◌then◌else◌, ◌≡◌, refl, sym, ap, ◌∙◌, inl, inr, ◌≢◌,
  arith, All, All-map, eqb, eqb_iff, Bool-cases, Permᴰ, map, select-Permᴰ, map-Permᴰ, All-Permᴰ,
  Permᴰ_sym, length-Permᴰ,
}
use drlog_search.Table.{lookup, insert, Above, Sorted, lookup-insert, lookup-insert-other}
use drlog_search.Gateway.Agents.{AgentInfo, Agents}
use drlog_search.Gateway.Batches.{batches-Shares, Shares}
use drlog_search.Gateway.Listing.{AgentFileIndex}
use drlog_search.Gateway.Dispatch.{
  map_agents, Task, paths_of, addressed, task_of, join, tasks_of, shared_tasks, grouped_tasks,
  search_tasks,
}
use drlog_search.Gateway.Dispatch.Groups.{
  files_of, Ascending, keyed, asked, Groups, group_loop-Groups,
}

-- The agent with an id that is last in a list, `found` if there is none.
abbrev pub named : Bytes → Option AgentInfo → List AgentInfo → Option AgentInfo
named id found [] = found
named id found (agent ∷ agents) =
    named id (if eqb id agent.agent_id then some agent else found) agents

lookup-map_agents :
    (id : Bytes) (table : Agents) (agents : List AgentInfo)
    → lookup id (map_agents table agents) ≡ named id (lookup id table) agents
unfolding map_agents
lookup-map_agents id table [] = refl
lookup-map_agents id table (agent ∷ agents) = elim (Bool-cases (eqb id agent.agent_id)) [
  | inl y ↦ rw y (
      lookup-map_agents id (insert agent.agent_id agent table) agents
      ∙ ap (λ o. named id o agents)
          (ap (λ i. lookup i (insert agent.agent_id agent table)) ((eqb_iff _ _).0 y)
            ∙ lookup-insert agent.agent_id agent table))
  | inr n ↦ rw n (
      lookup-map_agents id (insert agent.agent_id agent table) agents
      ∙ ap (λ o. named id o agents) (lookup-insert-other agent.agent_id id agent table n))
]

abbrev pub by_agent : List Task → List (Bytes × List Bytes)
by_agent [] = []
by_agent (task ∷ tasks) = (task.agent_id, task.paths) ∷ by_agent tasks

abbrev pathed : List (Bytes × List AgentFileIndex) → List (Bytes × List Bytes)
pathed [] = []
pathed ((id, group) ∷ groups) = (id, map (λ index. index.path) group) ∷ pathed groups

abbrev paths_asked : Option (List AgentFileIndex) → Option (List Bytes)
paths_asked none = none
paths_asked (some indexes) = some (map (λ index. index.path) indexes)

lookup-pathed :
    (id : Bytes) (groups : List (Bytes × List AgentFileIndex))
    → lookup id (pathed groups) ≡ paths_asked (lookup id groups)
unfolding lookup
lookup-pathed id [] = refl
lookup-pathed id ((k, group) ∷ groups) = elim (Bool-cases (eqb id k)) [
  | inl y ↦ rw y refl
  | inr n ↦ rw n (lookup-pathed id groups)
]

Above-pathed :
    (id : Bytes) (groups : List (Bytes × List AgentFileIndex))
    → Above id groups
    → Above id (pathed groups)
Above-pathed id [] h = tt
Above-pathed id ((k, group) ∷ groups) h = (h.0, Above-pathed id groups h.1)

Sorted-pathed :
    (groups : List (Bytes × List AgentFileIndex)) → Sorted groups → Sorted (pathed groups)
Sorted-pathed [] h = tt
Sorted-pathed ((k, group) ∷ groups) h = (Above-pathed k groups h.0, Sorted-pathed groups h.1)

Known : Agents → AgentFileIndex → Type 0
Known table index = (agent : AgentInfo) × (lookup index.agent_id table ≡ some agent)

Addressed : Agents → Task → Type 0
Addressed table task =
    (agent : AgentInfo) × (lookup task.agent_id table ≡ some agent) × (task.address ≡ agent.address)

tasks_of-keyed :
    (table : Agents) (groups : List (List AgentFileIndex))
    → All (All (Known table)) groups
    → (tasks : List Task) × (tasks_of table groups ≡ some tasks)
      × (by_agent tasks ≡ pathed (keyed groups))
      × All (Addressed table) tasks
unfolding tasks_of join task_of addressed paths_of Known Addressed
tasks_of-keyed table [] h = ([], refl, refl, tt)
tasks_of-keyed table ([] ∷ groups) h =
    let (tasks, e, b, a) = tasks_of-keyed table groups h.1 in (tasks, rw e refl, b, a)
tasks_of-keyed table ((index ∷ indexes) ∷ groups) h =
    let (tasks, e, b, a) = tasks_of-keyed table groups h.1 in
    let (agent, found) = h.0.0 in
    let task : Task = record {
      agent_id = index.agent_id;
      address = agent.address;
      paths = map (λ i. i.path) (index ∷ indexes);
    } in
    (task ∷ tasks, rw (found, e) refl, rw b refl, ((agent, found, refl), a))

-- What is asked of an agent that has these files: nothing if there are none.
abbrev pub Asked : List AgentFileIndex → Option (List Bytes) → Type 0
Asked [] paths = paths ≡ none
Asked (index ∷ indexes) paths =
    (asked_paths : List Bytes) × (paths ≡ some asked_paths)
    × Permᴰ asked_paths (map (λ i. i.path) (index ∷ indexes))

Asked-Permᴰ : (xs ys : List AgentFileIndex) → Permᴰ xs ys → Asked ys (paths_asked (asked xs))
Asked-Permᴰ [] [] p = refl
Asked-Permᴰ (x ∷ xs) [] p = absurd (let l = length-Permᴰ p in omega arith)
Asked-Permᴰ [] (y ∷ ys) p = absurd (let l = length-Permᴰ p in omega arith)
Asked-Permᴰ (x ∷ xs) (y ∷ ys) p = (map (λ i. i.path) (x ∷ xs), refl, map-Permᴰ (λ i. i.path) p)

-- A task that goes to the address of its agent.
pub Right : List AgentInfo → Task → Type 0
Right agents task =
    (agent : AgentInfo) × (named task.agent_id none agents ≡ some agent)
    × (task.address ≡ agent.address)

-- What the tasks of a search are to its files: there is one for each agent that has a file, and
-- none for any other; it names the files of its agent, and it goes to the address of that agent.
pub record Dispatched (agents : List AgentInfo) (indexes : List AgentFileIndex) (tasks : List Task)
    : Type 0 where
  pub once : Sorted (by_agent tasks)
  pub paths_exact : (id : Bytes) → Asked (files_of id indexes) (lookup id (by_agent tasks))
  pub addressed_right : All (Right agents) tasks

unfoldable pub Listed : List AgentInfo → AgentFileIndex → Type 0
Listed agents index = (agent : AgentInfo) × (named index.agent_id none agents ≡ some agent)

module _ (sort : List AgentFileIndex → List AgentFileIndex)
    (sort-Permᴰ : (indexes : List AgentFileIndex) → Permᴰ indexes (sort indexes))
    (sort-Ascending : (indexes : List AgentFileIndex) → Ascending (sort indexes)) where
  -- With a sort that orders by the id, where each file is one of an agent of the list and no id is
  -- empty: the grouping and the sending are defined (no back of an empty vector, no access out of
  -- range, no null pointer), and the requests are as they should be: each agent that has files is
  -- asked exactly once, at its address, for exactly its files.
  pub search_tasks-Dispatched :
      (agents : List AgentInfo) (indexes : List AgentFileIndex)
      → All (Listed agents) indexes
      → All (λ index. index.agent_id ≢ []) indexes
      → (tasks : List Task) × (search_tasks sort agents indexes ≡ some tasks)
        × Dispatched agents indexes tasks
  unfolding search_tasks grouped_tasks shared_tasks Groups Shares Listed Known Addressed Right
      lookup
  search_tasks-Dispatched agents indexes known ids =
      let p = sort-Permᴰ indexes in
      let table = map_agents [] agents in
      let in_table =
        All-map (Listed agents) (Known table)
          (λ index k. (k.0, lookup-map_agents index.agent_id [] agents ∙ k.1)) indexes known in
      let (groups, e, g, all) =
        group_loop-Groups (Known table) (sort indexes) (All-Permᴰ (Known table) p in_table)
          (All-Permᴰ (λ index. index.agent_id ≢ []) p ids) (sort-Ascending indexes) in
      let (bs, be, bc, bl) = (batches-Shares groups).1 in
      let (tasks, te, tb, ta) = tasks_of-keyed table groups all in
      (
        tasks,
        rw (e, be, bc) te,
        record {
          once = rw tb (Sorted-pathed (keyed groups) g.0);
          paths_exact = λ id.
              rw (tb, lookup-pathed id (keyed groups), g.1 id)
                (Asked-Permᴰ (files_of id (sort indexes)) (files_of id indexes)
                  (select-Permᴰ (λ index. eqb id index.agent_id) (Permᴰ_sym p)));
          addressed_right =
              All-map (Addressed table) (Right agents)
                (λ task k. (k.0, sym (lookup-map_agents task.agent_id [] agents) ∙ k.1, k.2)) tasks
                ta;
        },
      )
