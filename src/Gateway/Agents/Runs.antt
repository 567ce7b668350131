-- ===== src/Gateway/Agents/Runs.antt =====
-- The table of agents along a run of announcements and cleanups (src/gateway/agent_manager.cpp).
use drlog_search.Base.{
  ℕ, ◌+◌, ◌^◌, ◌≤◌, ◌<◌, true, false, not, Option, none, some, List, [], ◌∷◌, ◌++◌, Bytes, ◌≡◌,
  refl, sym, ap, ◌∙◌, inl, inr, ◌≢◌, arith, Bool-cases, Option-cases, eqb, eqb_iff, All,
}
use drlog_search.Table.{lookup, Sorted, insert-Sorted, keep-Sorted}
use drlog_search.Gateway.Agents.{
  AgentInfo, Agents, id_of, is_expired, announced, add_agent, unexpired, get_agent_by_id,
  cleanup_expired_agents,
}
use drlog_search.Gateway.Agents.Lifetime.{
  lookup-add_agent, lookup-add_agent-other, announced-last, lookup-cleanup, is_expired_lem,
}

pub data Event : Type 0 where
  announces : Bytes → Event
  cleans : Event

-- An event and the time that the clock has.
pub record Step : Type 0 where
  pub time : ℕ
  pub event : Event

abbrev pub step : ℕ → Event → Agents → Agents
step now (announces addr) agents = add_agent now addr agents
step now cleans agents = cleanup_expired_agents now agents

abbrev pub run : List Step → Agents → Agents
run [] agents = agents
run (s ∷ steps) agents = run steps (step s.time s.event agents)

-- The clock does not go back between two times, and fits 64 bits.
abbrev pub Between : ℕ → List Step → ℕ → Type 0
Between now [] later = (now ≤ later) × (later < 2 ^ 64)
Between now (s ∷ steps) later = (now ≤ s.time) × Between s.time steps later

-- No announcement of an id.
abbrev pub Silent : Bytes → Event → Type 0
Silent id (announces addr) = id ≢ id_of addr
Silent id cleans = Unit

Between-le :
    (now : ℕ) (steps : List Step) (later : ℕ)
    → Between now steps later
    → (now ≤ later) × (later < 2 ^ 64)
Between-le now [] later h = h
Between-le now (s ∷ steps) later h = let k = Between-le s.time steps later h.1 in (omega arith, k.1)

step-Sorted :
    (now : ℕ) (event : Event) (agents : Agents) → Sorted agents → Sorted (step now event agents)
unfolding add_agent cleanup_expired_agents
step-Sorted now (announces addr) agents s = insert-Sorted (id_of addr) _ agents s
step-Sorted now cleans agents s = keep-Sorted (λ agent. not (is_expired now agent)) agents s

-- An agent is in the table, and announced itself between two times.
Fresh : ℕ → ℕ → Option AgentInfo → Type 0
Fresh t now o =
    (agent : AgentInfo) × (o ≡ some agent) × (t ≤ agent.last_announce) × (agent.last_announce ≤ now)

unexpired-Fresh :
    (t now : ℕ) (o : Option AgentInfo)
    → Fresh t now o
    → now ≤ t + 60
    → now < 2 ^ 64
    → unexpired now o ≡ o
unfolding unexpired Fresh
unexpired-Fresh t now o (agent, e, l, u) h b =
    let x : is_expired now agent ≡ false =
      is_expired_lem agent.last_announce now agent refl u b ∙ ground arith in
    rw (e, x) refl

step-Fresh :
    (id : Bytes) (t now later : ℕ) (event : Event) (agents : Agents)
    → Sorted agents
    → Fresh t now (lookup id agents)
    → now ≤ later
    → later ≤ t + 60
    → later < 2 ^ 64
    → Fresh t later (lookup id (step later event agents))
unfolding Fresh get_agent_by_id
step-Fresh id t now later (announces addr) agents s (agent, e, l, u) n h b =
    elim (Bool-cases (eqb id (id_of addr))) [
      | inl y ↦
          let a = announced later addr (id_of addr) (lookup (id_of addr) agents) in
          let is = announced-last later addr (id_of addr) (lookup (id_of addr) agents) in
          let same = (eqb_iff id (id_of addr)).0 y in
          (
            a,
            rw (same, lookup-add_agent later addr agents) refl,
            omega (arith, is),
            omega (arith, is),
          )
      | inr m ↦
          let apart : id ≢ id_of addr =
            λ x. absurd (ground (arith, m, (eqb_iff id (id_of addr)).1 x)) in
          (agent, lookup-add_agent-other later addr id agents apart ∙ e, l, omega arith)
    ]
step-Fresh id t now later cleans agents s (agent, e, l, u) n h b =
    let kept = unexpired-Fresh t later (lookup id agents) (agent, e, l, omega arith) h b in
    (agent, lookup-cleanup later id agents s ∙ found kept ∙ e, l, omega arith)
  where
    found :
        unexpired later (lookup id agents) ≡ lookup id agents
        → get_agent_by_id later id agents ≡ lookup id agents
    found k = k

run-Fresh :
    (id : Bytes) (t now later : ℕ) (steps : List Step) (agents : Agents)
    → Sorted agents
    → Fresh t now (lookup id agents)
    → Between now steps later
    → later ≤ t + 60
    → Fresh t later (lookup id (run steps agents))
unfolding Fresh
run-Fresh id t now later [] agents s (agent, e, l, u) c h = (agent, e, l, omega arith)
run-Fresh id t now later (x ∷ steps) agents s f c h =
    let (le, small) = Between-le x.time steps later c.1 in
    run-Fresh id t x.time later steps (step x.time x.event agents)
      (step-Sorted x.time x.event agents s)
      (step-Fresh id t now x.time x.event agents s f c.0 (omega arith) (omega arith)) c.1 h

-- While the clock does not go back: an agent that announces itself is found by its id through the
-- next 60 seconds, whatever other announcements and cleanups there are in between.
pub get_agent_by_id-run :
    (addr : Bytes) (t later : ℕ) (steps : List Step) (agents : Agents)
    → Sorted agents
    → Between t steps later
    → later ≤ t + 60
    → (agent : AgentInfo) × (get_agent_by_id later
          (id_of addr)
          (run steps (add_agent t addr agents))
        ≡ some agent)
      × (t ≤ agent.last_announce)
unfolding Fresh get_agent_by_id
get_agent_by_id-run addr t later steps agents s c h =
    let a = announced t addr (id_of addr) (lookup (id_of addr) agents) in
    let is = announced-last t addr (id_of addr) (lookup (id_of addr) agents) in
    let (agent, e, l, u) =
      run-Fresh (id_of addr) t t later steps (add_agent t addr agents)
        (step-Sorted t (announces addr) agents s)
        (a, lookup-add_agent t addr agents, omega (arith, is), omega (arith, is)) c h in
    let (le, small) = Between-le t steps later c in
    (
      agent,
      unexpired-Fresh t later (lookup (id_of addr) (run steps (add_agent t addr agents)))
            (agent, e, l, u) h small
          ∙ e,
      l,
    )

unexpired-of :
    (now : ℕ) (o : Option AgentInfo) (agent : AgentInfo)
    → unexpired now o ≡ some agent
    → o ≡ some agent
unfolding unexpired
unexpired-of now none agent h = h
unexpired-of now (some a) agent h = elim (Bool-cases (is_expired now a)) [
  | inl y ↦ absurd (let z : ◌≡◌ {A = Option AgentInfo} none (some agent) = rw y at h in cc)
  | inr n ↦ rw n at h
]

step-Silent :
    (id : Bytes) (now : ℕ) (event : Event) (agents : Agents) (agent : AgentInfo)
    → Sorted agents
    → Silent id event
    → lookup id (step now event agents) ≡ some agent
    → lookup id agents ≡ some agent
unfolding get_agent_by_id
step-Silent id now (announces addr) agents agent s q h =
    sym (lookup-add_agent-other now addr id agents q) ∙ h
step-Silent id now cleans agents agent s q h =
    unexpired-of now (lookup id agents) agent (sym (lookup-cleanup now id agents s) ∙ h)

run-Silent :
    (id : Bytes) (steps : List Step) (agents : Agents) (agent : AgentInfo)
    → Sorted agents
    → All (λ s. Silent id s.event) steps
    → lookup id (run steps agents) ≡ some agent
    → lookup id agents ≡ some agent
run-Silent id [] agents agent s q h = h
run-Silent id (x ∷ steps) agents agent s q h = step-Silent id x.time x.event agents agent s q.0 (
    run-Silent id steps (step x.time x.event agents) agent (step-Sorted x.time x.event agents s) q.1
      h)

run-Sorted : (steps : List Step) (agents : Agents) → Sorted agents → Sorted (run steps agents)
run-Sorted [] agents s = s
run-Sorted (x ∷ steps) agents s =
    run-Sorted steps (step x.time x.event agents) (step-Sorted x.time x.event agents s)

run-append :
    (steps later : List Step) (agents : Agents)
    → run (steps ++ later) agents ≡ run later (run steps agents)
run-append [] later agents = refl
run-append (x ∷ steps) later agents = run-append steps later (step x.time x.event agents)

cleanup-gone :
    (id : Bytes) (c : ℕ) (agents : Agents) (agent : AgentInfo)
    → Sorted agents
    → lookup id agents ≡ some agent
    → agent.last_announce + 60 < c
    → c < 2 ^ 64
    → lookup id (cleanup_expired_agents c agents) ≡ none
unfolding get_agent_by_id unexpired
cleanup-gone id c agents agent s e h b =
    let x : is_expired c agent ≡ true =
      is_expired_lem agent.last_announce c agent refl (omega arith) b ∙ ground arith in
    lookup-cleanup c id agents s ∙ rw (e, x) refl

-- An agent that has not announced itself since a time, and does not any more, is removed by the
-- first cleanup that is more than 60 seconds later, and does not come back.
pub lookup-run-none :
    (id : Bytes) (t c : ℕ) (before after : List Step) (agents : Agents)
    → Sorted agents
    → ((agent : AgentInfo) → lookup id agents ≡ some agent → agent.last_announce ≤ t)
    → All (λ s. Silent id s.event) before
    → All (λ s. Silent id s.event) after
    → t + 60 < c
    → c < 2 ^ 64
    → lookup id (run (before ++ record { time = c; event = cleans } ∷ after) agents) ≡ none
unfolding get_agent_by_id
lookup-run-none id t c before after agents s old qb qa h b =
    let steps = before ++ record { time = c; event = cleans } ∷ after in
    let table = run before agents in
    elim (Option-cases (lookup id (run steps agents))) [
      | inl none_left ↦ none_left
      | inr (agent, e) ↦
          let e' =
            sym (
              ap (lookup id)
                (run-append before (record { time = c; event = cleans } ∷ after) agents))
            ∙ e in
          let sorted = run-Sorted before agents s in
          let cleaned =
            run-Silent id after (cleanup_expired_agents c table) agent
              (step-Sorted c cleans table sorted) qa e' in
          let there =
            unexpired-of c (lookup id table) agent
              (sym (lookup-cleanup c id table sorted) ∙ cleaned) in
          let l = old agent (run-Silent id before agents agent s qb there) in
          let gone = cleanup-gone id c table agent sorted there (omega arith) b in
          absurd (let z : ◌≡◌ {A = Option AgentInfo} none (some agent) = sym gone ∙ cleaned in cc)
    ]
