-- ===== src/Gateway/Agents.antt =====
-- `AgentManager` of src/gateway/agent_manager.cpp. The clock is an argument: `now` is what
-- `std::time` gives during the call. The locks make each operation one step.
pub mod Ids
pub mod Lifetime
pub mod Active
pub mod Runs
use drlog_search.Base.{
  ℕ, zero, suc, ◌+◌, ◌-◌, ◌/◌, ◌%◌, ◌^◌, Bool, not, Option, none, some, List, [], ◌∷◌, ◌++◌, Bytes,
  ltb, leb, if◌then◌else◌,
}
use drlog_search.Table.{lookup, insert, keep}
use drlog_search.Util.Hash.{murmur_hash64}

-- `std::to_string` of a 64-bit number, which has 20 digits at most.
unfoldable pub decimal : ℕ → ℕ → Bytes
decimal zero n = []
decimal (suc digits) n =
    let higher = decimal digits (n / 10) in
    (if ltb n 10 then [] else higher) ++ (b'0' + n % 10) ∷ []

unfoldable pub to_string : ℕ → Bytes
unfolding decimal
to_string n = decimal 20 n

-- `agent_info`, less the cache of indexes, which no code uses.
pub record AgentInfo : Type 0 where
  pub address : Bytes
  pub agent_id : Bytes
  pub last_announce : ℕ

-- `agents_`
abbrev pub Agents : Type 0
Agents = List (Bytes × AgentInfo)

-- AGENT_TIMEOUT_SECONDS
abbrev pub agent_timeout_seconds : ℕ
agent_timeout_seconds = 60

unfoldable pub id_of : Bytes → Bytes
id_of agent_addr = to_string (murmur_hash64 agent_addr 0)

-- `now - last_announce > AGENT_TIMEOUT_SECONDS`, on `uint64_t`.
unfoldable pub is_expired : ℕ → AgentInfo → Bool
is_expired now agent = ltb agent_timeout_seconds ((now + 2 ^ 64 - agent.last_announce) % 2 ^ 64)

unfoldable pub announced : ℕ → Bytes → Bytes → Option AgentInfo → AgentInfo
announced now addr id none = record { address = addr; agent_id = id; last_announce = now }
announced now addr id (some agent) = record agent { last_announce = now }

unfoldable pub add_agent : ℕ → Bytes → Agents → Agents
unfolding announced
add_agent now agent_addr agents =
    let id = id_of agent_addr in insert id (announced now agent_addr id (lookup id agents)) agents

unfoldable pub unexpired : ℕ → Option AgentInfo → Option AgentInfo
unexpired now none = none
unexpired now (some agent) = if is_expired now agent then none else some agent

unfoldable pub get_agent_by_id : ℕ → Bytes → Agents → Option AgentInfo
unfolding unexpired
get_agent_by_id now agent_id agents = unexpired now (lookup agent_id agents)

-- The loop of `get_active_agents`.
unfoldable pub get_active_agents : ℕ → Agents → List AgentInfo
get_active_agents now [] = []
get_active_agents now ((id, agent) ∷ agents) =
    let later = get_active_agents now agents in
    if leb ((now + 2 ^ 64 - agent.last_announce) % 2 ^ 64) agent_timeout_seconds
    then agent ∷ later
    else later

unfoldable pub cleanup_expired_agents : ℕ → Agents → Agents
cleanup_expired_agents now agents = keep (λ agent. not (is_expired now agent)) agents
