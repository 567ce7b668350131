-- ===== src/Exchange/Announcements.antt =====
-- An agent announces itself (`run_announce_task` of src/agent/main_agent.cpp), and the gateway
-- keeps it (`announce` of src/gateway/gateway_handler.cpp).
use drlog_search.Base.{
  ℕ, List, ◌+◌, ◌≤◌, ◌<◌, [], Bytes, some, codes, ◌++◌, ◌≡◌, refl, sym, inl, inr, Bool-cases, ◌∷◌,
  ◌≢◌, All, is_empty, false,
}
use drlog_search.Table.{Sorted}
use drlog_search.Util.Url.{is_unreserved, url_encode}
use drlog_search.Util.Url.RoundTrip.{url_decode-url_encode}
use drlog_search.Http.{Request, Response, get}
use drlog_search.Agent.Startup.{announce_url}
use drlog_search.Gateway.Agents.{AgentInfo, Agents, id_of, add_agent, get_agent_by_id}
use drlog_search.Gateway.Agents.Runs.{Step, Between, run, get_agent_by_id-run}
use drlog_search.Gateway.Handlers.{announce}
use mathlib.Core.List.{append_cancel_left}

-- The server's parameter of an announcement is what stands behind its name in the URL.
abbrev pub Carries : Request → Bytes → Bytes → Type 0
Carries req gateway address =
    announce_url gateway address
    ≡ codes "http://"
      ++ gateway
      ++ codes "/agent/announce?agent_addr="
      ++ req.param (codes "agent_addr")

param-Carries :
    (req : Request) (gateway address : Bytes)
    → Carries req gateway address
    → req.param (codes "agent_addr") ≡ url_encode address
unfolding announce_url
param-Carries req gateway address c = sym (
    append_cancel_left (codes "http://" ++ gateway ++ codes "/agent/announce?agent_addr=")
      (url_encode address) (req.param (codes "agent_addr")) c)

url_encode-nonempty : (s : Bytes) → s ≢ [] → is_empty (url_encode s) ≡ false
unfolding url_encode
url_encode-nonempty [] ne = absurd (ne refl)
url_encode-nonempty (c ∷ s) ne = elim (Bool-cases (is_unreserved c)) [
  | inl y ↦ rw y refl
  | inr n ↦ rw n refl
]

-- While the clock does not go back: when an agent has announced itself at a gateway by its URL, the
-- gateway answers 200, and finds the agent under the id of its address through the next 60 seconds,
-- whatever other announcements and cleanups there are in between.
pub announce-run :
    (junk now later : ℕ) (gateway address : Bytes) (req : Request) (res : Response)
    (agents : Agents) (steps : List Step)
    → Sorted agents
    → All (λ c. c < 256) address
    → address ≢ []
    → req.verb ≡ get
    → Carries req gateway address
    → Between now steps later
    → later ≤ now + 60
    → (table : Agents) × (announce junk now req res agents ≡ (record res { result = 200 }, table))
      × ((agent : AgentInfo) × (get_agent_by_id later (id_of address) (run steps table)
            ≡ some agent)
          × (now ≤ agent.last_announce))
unfolding announce
announce-run junk now later gateway address req res agents steps s bytes ne verb c between h = (
  add_agent now address agents,
  rw
      (
        verb,
        param-Carries req gateway address c,
        url_encode-nonempty address ne,
        url_decode-url_encode junk address bytes,
      )
      refl,
  get_agent_by_id-run address now later steps agents s between h,
)
