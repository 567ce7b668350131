-- ===== src/Gateway/Agents/Lifetime.antt =====
-- How long agents are known (src/gateway/agent_manager.cpp).
use drlog_search.Base.{
  ℕ, ◌+◌, ◌-◌, ◌%◌, ◌^◌, ◌≤◌, ◌<◌, true, false, not, Option, none, some, List, [], ◌∷◌, Bytes, ltb,
  ◌≡◌, refl, sym, ap, ◌∙◌, inl, inr, ◌≢◌, arith, Bool-cases, eqb, eqb_iff,
}
use drlog_search.Table.{
  lookup, keep, Sorted, kept, lookup-insert, lookup-insert-other, insert-Sorted, keep-Sorted,
  lookup-keep,
}
use drlog_search.Gateway.Agents.{
  AgentInfo, Agents, id_of, is_expired, announced, add_agent, unexpired, get_agent_by_id,
  get_active_agents, cleanup_expired_agents,
}

-- What the gateway keeps: one entry for each id, in their order, and the id of an entry is that of
-- its address.
pub record Registered (agents : Agents) : Type 0 where
  pub sorted : Sorted agents
  pub consistent :
      (id : Bytes) (agent : AgentInfo)
      → lookup id agents ≡ some agent
      → (agent.agent_id ≡ id) × (id_of agent.address ≡ id)

pub lookup-add_agent :
    (now : ℕ) (addr : Bytes) (agents : Agents)
    → lookup (id_of addr) (add_agent now addr agents)
      ≡ some (announced now addr (id_of addr) (lookup (id_of addr) agents))
unfolding add_agent
lookup-add_agent now addr agents = lookup-insert (id_of addr) _ agents

pub lookup-add_agent-other :
    (now : ℕ) (addr id : Bytes) (agents : Agents)
    → id ≢ id_of addr
    → lookup id (add_agent now addr agents) ≡ lookup id agents
unfolding add_agent
lookup-add_agent-other now addr id agents ne = elim (Bool-cases (eqb id (id_of addr))) [
  | inl y ↦ absurd (ne ((eqb_iff _ _).0 y))
  | inr n ↦ lookup-insert-other (id_of addr) id _ agents n
]

announced_lem :
    (now : ℕ) (addr id : Bytes) (before : Option AgentInfo)
    → id_of addr ≡ id
    → ((a : AgentInfo) → before ≡ some a → (a.agent_id ≡ id) × (id_of a.address ≡ id))
    → ((announced now addr id before).agent_id ≡ id)
      × (id_of (announced now addr id before).address ≡ id)
unfolding announced
announced_lem now addr id none e h = (refl, e)
announced_lem now addr id (some a) e h = h a refl

pub add_agent-Registered :
    (now : ℕ) (addr : Bytes) (agents : Agents)
    → Registered agents
    → Registered (add_agent now addr agents)
unfolding add_agent
add_agent-Registered now addr agents r = record {
  sorted = insert-Sorted (id_of addr) _ agents r.sorted;
  consistent = λ id agent h. elim (Bool-cases (eqb id (id_of addr))) [
    | inl y ↦
        let e = (eqb_iff _ _).0 y in
        let same =
          announced_lem now addr (id_of addr) (lookup (id_of addr) agents) refl
            (r.consistent (id_of addr)) in
        let found =
          sym (
            lookup-insert (id_of addr)
              (announced now addr (id_of addr) (lookup (id_of addr) agents)) agents)
          ∙ ap (λ i. lookup i (add_agent now addr agents)) (sym e)
          ∙ h in
        let is : announced now addr (id_of addr) (lookup (id_of addr) agents) ≡ agent = cc in
        rw (e, ← is) same
    | inr n ↦ r.consistent id agent (sym (lookup-insert-other (id_of addr) id _ agents n) ∙ h)
  ];
}

kept-unexpired :
    (now : ℕ) (o : Option AgentInfo)
    → kept (λ agent. not (is_expired now agent)) o ≡ unexpired now o
unfolding unexpired
kept-unexpired now none = refl
kept-unexpired now (some a) = ground arith

pub lookup-cleanup :
    (now : ℕ) (id : Bytes) (agents : Agents)
    → Sorted agents
    → lookup id (cleanup_expired_agents now agents) ≡ get_agent_by_id now id agents
unfolding cleanup_expired_agents get_agent_by_id
lookup-cleanup now id agents s =
    lookup-keep (λ agent. not (is_expired now agent)) id agents s
    ∙ kept-unexpired now (lookup id agents)

unexpired-some :
    (now : ℕ) (o : Option AgentInfo) (a : AgentInfo)
    → unexpired now o ≡ some a
    → (o ≡ some a) × (is_expired now a ≡ false)
unfolding unexpired
unexpired-some now none a h = cc
unexpired-some now (some b) a h = elim (Bool-cases (is_expired now b)) [
  | inl y ↦ ground (arith, y, h)
  | inr n ↦ let is : some b ≡ some a = rw n at h in let same : b ≡ a = cc in (is, rw (← same) n)
]

pub cleanup-Registered :
    (now : ℕ) (agents : Agents) → Registered agents → Registered (cleanup_expired_agents now agents)
unfolding cleanup_expired_agents get_agent_by_id
cleanup-Registered now agents r = record {
  sorted = keep-Sorted (λ agent. not (is_expired now agent)) agents r.sorted;
  consistent = λ id agent h. r.consistent id agent (
      (unexpired-some now (lookup id agents) agent
        (sym (lookup-cleanup now id agents r.sorted) ∙ h)).0);
}

-- The tables that announcements and the cleanup task make.
pub data Reachable : Agents → Type 0 where
  start : Reachable []
  announce :
      (now : ℕ) (addr : Bytes) (agents : Agents)
      → Reachable agents
      → Reachable (add_agent now addr agents)
  cleanup :
      (now : ℕ) (agents : Agents) → Reachable agents → Reachable (cleanup_expired_agents now agents)

-- Whatever agents announce themselves and however often the expired ones are removed, from an empty
-- table on, the table has one entry for each id, in the order of the ids, and the id of an entry is
-- the one that its address has.
pub Reachable-Registered : (agents : Agents) → Reachable agents → Registered agents
unfolding lookup
Reachable-Registered _ start = record { sorted = tt; consistent = λ id agent h. cc }
Reachable-Registered _ (announce now addr agents r) =
    add_agent-Registered now addr agents (Reachable-Registered agents r)
Reachable-Registered _ (cleanup now agents r) =
    cleanup-Registered now agents (Reachable-Registered agents r)

pub is_expired_lem :
    (now later : ℕ) (a : AgentInfo)
    → a.last_announce ≡ now
    → now ≤ later
    → later < 2 ^ 64
    → is_expired later a ≡ ltb 60 (later - now)
unfolding is_expired
is_expired_lem now later a e l b =
    let same : (later + 2 ^ 64 - a.last_announce) % 2 ^ 64 ≡ later - now = omega arith in rw same

pub announced-last :
    (now : ℕ) (addr id : Bytes) (o : Option AgentInfo)
    → (announced now addr id o).last_announce ≡ now
unfolding announced
announced-last now addr id none = refl
announced-last now addr id (some a) = refl

-- At a time that is not before `now` and fits 64 bits, an agent that announced itself at `now` is
-- found by its id, with that time, until 60 seconds later, and not after that; no other id is found
-- otherwise than before the announcement.
pub get_agent_by_id-add_agent :
    (now later : ℕ) (addr : Bytes) (agents : Agents)
    → now ≤ later
    → later < 2 ^ 64
    → (later ≤ now + 60
        → (a : AgentInfo) × (get_agent_by_id later (id_of addr) (add_agent now addr agents)
            ≡ some a)
          × (a.last_announce ≡ now))
      × (now + 60 < later → get_agent_by_id later (id_of addr) (add_agent now addr agents) ≡ none)
      × ((id : Bytes)
          → id ≢ id_of addr
          → get_agent_by_id later id (add_agent now addr agents) ≡ get_agent_by_id later id agents)
unfolding get_agent_by_id unexpired
get_agent_by_id-add_agent now later addr agents l b =
    let a = announced now addr (id_of addr) (lookup (id_of addr) agents) in
    let fresh = announced-last now addr (id_of addr) (lookup (id_of addr) agents) in
    let e = is_expired_lem now later a fresh l b in
    (
      λ h. (
        a,
        (let f : ltb 60 (later - now) ≡ false = ground arith in
            rw (lookup-add_agent now addr agents, e, f)),
        fresh,
      ),
      λ h.
          (let t : ltb 60 (later - now) ≡ true = ground arith in
            rw (lookup-add_agent now addr agents, e, t)),
      λ id ne. rw (lookup-add_agent-other now addr id agents ne),
    )

abbrev pub infos : Agents → List AgentInfo
infos [] = []
infos ((id, agent) ∷ agents) = agent ∷ infos agents

active-infos :
    (now : ℕ) (agents : Agents)
    → get_active_agents now agents ≡ infos (cleanup_expired_agents now agents)
unfolding get_active_agents cleanup_expired_agents keep is_expired
active-infos now [] = refl
active-infos now ((id, agent) ∷ agents) = ground (arith, active-infos now agents)

-- In a table of the gateway, the agents that are active at a time are those that remain when the
-- expired ones are removed at that time, and removing them makes no difference to what is found by
-- an id then.
pub cleanup_expired_agents_lem :
    (now : ℕ) (agents : Agents)
    → Registered agents
    → (get_active_agents now agents ≡ infos (cleanup_expired_agents now agents))
      × ((id : Bytes)
          → lookup id (cleanup_expired_agents now agents) ≡ get_agent_by_id now id agents)
cleanup_expired_agents_lem now agents r =
    (active-infos now agents, λ id. lookup-cleanup now id agents r.sorted)
