-- ===== src/Tests/Gateway.antt =====
-- src/gateway on small tables.
use drlog_search.Base.{
  ◌≤◌, ◌<◌, All, none, some, [], Bytes, codes, ◌≡◌, refl, arith, List, ◌∷◌, ◌++◌, sym, ap, ◌∙◌,
  Option,
}
use drlog_search.Table.{lookup}
use drlog_search.Gateway.Agents.{
  AgentInfo, Agents, announced, id_of, add_agent, get_agent_by_id, get_active_agents,
  cleanup_expired_agents, to_string,
}
use drlog_search.Gateway.Agents.Runs.{
  Step, announces, cleans, run, get_agent_by_id-run, lookup-run-none,
}
use drlog_search.Gateway.Agents.Lifetime.{
  Registered, Reachable, announce, lookup-add_agent, announced-last, Reachable-Registered,
  cleanup_expired_agents_lem, infos,
}
use drlog_search.Http.{Request, get}
use drlog_search.Util.Url.{url_encode}
use drlog_search.Agent.Startup.{announce_url}
use drlog_search.Gateway.Handlers
use drlog_search.Exchange.Announcements.{Carries, announce-run}
use drlog_search.Tests.Dispatch.{response}

abbrev pub addr : Bytes
addr = codes "10.0.0.1:80"

Reachable-Registered_example : Registered (add_agent 5 addr [])
Reachable-Registered_example =
    Reachable-Registered (add_agent 5 addr []) (announce 5 addr [] Reachable.start)

cleanup_expired_agents_lem_example :
    (get_active_agents 70 (add_agent 5 addr [])
      ≡ infos (cleanup_expired_agents 70 (add_agent 5 addr [])))
    × ((id : Bytes)
        → lookup id (cleanup_expired_agents 70 (add_agent 5 addr []))
          ≡ get_agent_by_id 70 id (add_agent 5 addr []))
cleanup_expired_agents_lem_example =
    cleanup_expired_agents_lem 70 (add_agent 5 addr []) Reachable-Registered_example

writes_decimal : to_string 1024 ≡ codes "1024"
unfolding to_string
writes_decimal = refl

abbrev two_steps : List Step
two_steps =
    record { time = 20; event = cleans }
    ∷ record { time = 30; event = announces (codes "b:1") }
    ∷ []

get_agent_by_id-run_example :
    (agent : AgentInfo) × (get_agent_by_id 40 (id_of addr) (run two_steps (add_agent 5 addr []))
      ≡ some agent)
    × (5 ≤ agent.last_announce)
get_agent_by_id-run_example =
    get_agent_by_id-run addr 5 40 two_steps [] tt
      (omega arith, (omega arith, (omega arith, omega arith))) (omega arith)

abbrev known : Agents
known = add_agent 5 addr []

known-old : (agent : AgentInfo) → lookup (id_of addr) known ≡ some agent → agent.last_announce ≤ 5
known-old agent e =
    let is : ◌≡◌ {A = Option AgentInfo}
        (some (announced 5 addr (id_of addr) (lookup (id_of addr) []))) (some agent) =
      sym (lookup-add_agent 5 addr []) ∙ e in
    let same : announced 5 addr (id_of addr) (lookup (id_of addr) []) ≡ agent = cc in
    let last = announced-last 5 addr (id_of addr) (lookup (id_of addr) []) in
    let l : agent.last_announce ≡ 5 = ap (λ (a : AgentInfo). a.last_announce) (sym same) ∙ last in
    omega (arith, l)

lookup-run-none_example :
    lookup (id_of addr) (
      run
        ((record { time = 20; event = cleans } ∷ []) ++ record { time = 90; event = cleans } ∷ [])
        known)
    ≡ none
lookup-run-none_example =
    lookup-run-none (id_of addr) 5 90 (record { time = 20; event = cleans } ∷ []) [] known
      (Reachable-Registered known (announce 5 addr [] Reachable.start)).sorted known-old (tt, tt) tt
      (omega arith) (omega arith)

addr-bytes : All (λ c. c < 256) addr
addr-bytes = (
  omega arith,
  (
    omega arith,
    (
      omega arith,
      (
        omega arith,
        (
          omega arith,
          (
            omega arith,
            (omega arith, (omega arith, (omega arith, (omega arith, (omega arith, tt))))),
          ),
        ),
      ),
    ),
  ),
)

abbrev announcement : Request
announcement = record {
  verb = get;
  path = codes "/agent/announce";
  prefix_path = codes "/agent/announce";
  param = λ key. codes "10.0.0.1%3A80";
  body = [];
  accept_encoding = none;
}

announcement-Carries : Carries announcement (codes "gw:80") addr
unfolding announce_url url_encode
announcement-Carries = refl

announce-run_example :
    (table : Agents) × (Handlers.announce 0 5 announcement response []
      ≡ (record response { result = 200 }, table))
    × ((agent : AgentInfo) × (get_agent_by_id 40 (id_of addr) (run two_steps table) ≡ some agent)
        × (5 ≤ agent.last_announce))
announce-run_example =
    announce-run 0 5 40 (codes "gw:80") addr announcement response [] two_steps tt addr-bytes
      (λ e. cc) refl announcement-Carries (omega arith, (omega arith, (omega arith, omega arith)))
      (omega arith)
