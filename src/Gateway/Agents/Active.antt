-- ===== src/Gateway/Agents/Active.antt =====
-- The agents that are asked have ids (src/gateway/agent_manager.cpp).
use drlog_search.Base.{
  ℕ, suc, ◌+◌, ◌%◌, ◌-◌, ◌^◌, [], ◌∷◌, Bytes, leb, ◌≡◌, refl, sym, ◌∙◌, inl, inr, ◌≢◌, arith,
  Bool-cases, All, length, length-append,
}
use drlog_search.Table.Entries.{Sorted-All}
use drlog_search.Util.Hash.{murmur_hash64}
use drlog_search.Gateway.Agents.{AgentInfo, Agents, decimal, to_string, id_of, get_active_agents}
use drlog_search.Gateway.Agents.Lifetime.{Registered}

decimal-ne : (digits n : ℕ) → decimal (suc digits) n ≢ []
unfolding decimal
decimal-ne digits n e =
    let l : length (decimal (suc digits) n) ≡ 0 = rw e refl in
    absurd (omega (arith, length-append _ ((b'0' + n % 10) ∷ []), l))

id_of-ne : (addr : Bytes) → id_of addr ≢ []
unfolding id_of to_string
id_of-ne addr e = decimal-ne 19 (murmur_hash64 addr 0) e

active-All {κ} :
    (P : AgentInfo → Type κ) (now : ℕ) (agents : Agents)
    → All (λ entry. P entry.1) agents
    → All P (get_active_agents now agents)
unfolding get_active_agents
active-All P now [] h = tt
active-All P now ((id, agent) ∷ agents) h =
    elim (Bool-cases (leb ((now + 2 ^ 64 - agent.last_announce) % 2 ^ 64) 60)) [
      | inl y ↦ rw y (h.0, active-All P now agents h.1)
      | inr n ↦ rw n (active-All P now agents h.1)
    ]

-- In a table of the gateway no active agent has the empty id.
pub active-ids :
    (now : ℕ) (agents : Agents)
    → Registered agents
    → All (λ agent. agent.agent_id ≢ []) (get_active_agents now agents)
active-ids now agents r =
    active-All (λ agent. agent.agent_id ≢ []) now agents
      (Sorted-All (λ agent. agent.agent_id ≢ []) agents r.sorted
        (λ key agent e. (λ none_left.
          id_of-ne agent.address
            ((r.consistent key agent e).1 ∙ sym (r.consistent key agent e).0 ∙ none_left))))
