-- ===== src/Gateway/Dispatch/Replies.antt =====
-- What the agents' replies add to the records of a search (`get_agent_search` of
-- src/gateway/gateway_handler.cpp).
use drlog_search.Base.{
  ℕ, Option, none, some, List, [], ◌∷◌, Bytes, codes, ◌==◌, ◌≡◌, refl, ◌⊎◌, inl, inr, ◌≢◌, All,
  Bool-cases, map, Permᴰ, arith,
}
use drlog_search.Json.{Json}
use drlog_search.Util.Gzip.{Zlib, decompress_body}
use drlog_search.Http.{Outcome, called, returned, ◌>>=◌, Reply, Client}
use drlog_search.Gateway.Agents.{AgentInfo}
use drlog_search.Gateway.Batches.{concat}
use drlog_search.Gateway.Listing.{AgentFileIndex, agent_url}
use drlog_search.Gateway.Dispatch.{
  Task, Records, search_body, unpacked, body_of, record_of, no_record, run_task, run_tasks,
  search_tasks, get_agent_search,
}
use drlog_search.Gateway.Dispatch.Groups.{Ascending}
use drlog_search.Gateway.Dispatch.Tasks.{Listed}
use drlog_search.Gateway.Dispatch.Order.{get_agent_search-run_tasks}

-- The text that is in a body with an encoding.
abbrev pub Holds : Zlib → ℕ → Bytes → Option Bytes → Bytes → Type 0
Holds zlib fuel body none text = body ≡ text
Holds zlib fuel body (some content_encoding) text =
    decompress_body zlib fuel body content_encoding [] ≡ some text

-- The fuel of the model suffices for each reply that the client gives; a client that bounds the
-- size of a reply has such a fuel.
abbrev pub Suffices : Zlib → ℕ → Client → Type 0
Suffices zlib fuel client =
    (url body : Bytes) (reply : Reply)
    → client.post url body ≡ some reply
    → (text : Bytes) × Holds zlib fuel reply.body reply.content_encoding text

body_of-Holds :
    (zlib : Zlib) (fuel : ℕ) (body : Bytes) (content_encoding : Option Bytes) (text : Bytes)
    → Holds zlib fuel body content_encoding text
    → body_of zlib fuel body content_encoding ≡ returned text
unfolding body_of unpacked
body_of-Holds zlib fuel body none text h = rw h refl
body_of-Holds zlib fuel body (some content_encoding) text h = rw h refl

module _ (json : Json) (zlib : Zlib) (fuel : ℕ) (client : Client) (prefix debug_param : Bytes)
    (jreq_body : json.Value) where
  -- The agent of a task answers the search for the paths of the task with status 200 and a text.
  pub record Replied (task : Task) (text : Bytes) : Type 0 where
    pub search : json.Value
    pub search_text : Bytes
    pub reply : Reply
    pub with_paths :
        json.subscript_assign (codes "paths") (json.array (map json.string task.paths)) jreq_body
        ≡ some search
    pub dumped : json.dump search ≡ some search_text
    pub replied :
        client.post (agent_url (codes "/log/search") task.address prefix debug_param) search_text
        ≡ some reply
    pub succeeded : reply.status ≡ 200
    pub contained : Holds zlib fuel reply.body reply.content_encoding text

  -- A task adds the text of the reply, under the id of its agent, and nothing without one.
  abbrev pub Adds : Task → Records → Type 0
  Adds task added =
      ((text : Bytes) × (added ≡ (task.agent_id, text) ∷ []) × Replied task text)
      ⊎ ((added ≡ []) × ((text : Bytes) → ¬ Replied task text))

  abbrev pub AllAdd : List Task → List Records → Type 0
  AllAdd [] added = added ≡ []
  AllAdd (task ∷ tasks) [] = ⊥
  AllAdd (task ∷ tasks) (records ∷ added) = Adds task records × AllAdd tasks added

  abbrev AddedBy : Task → Outcome Records → Type 0
  AddedBy task o = (added : Records) × (o ≡ returned added) × Adds task added

  module _ (suffices : Suffices zlib fuel client) (task : Task) (search : json.Value)
      (with_paths : json.subscript_assign
          (codes "paths")
          (json.array (map json.string task.paths))
          jreq_body
        ≡ some search) where
    record_of-Adds :
        (search_text : Bytes) (reply : Reply)
        → json.dump search ≡ some search_text
        → client.post (agent_url (codes "/log/search") task.address prefix debug_param) search_text
          ≡ some reply
        → AddedBy task (no_record (record_of zlib fuel task.agent_id reply))
    unfolding record_of no_record
    record_of-Adds search_text reply written replied = elim (Bool-cases (reply.status == 200)) [
      | inl y ↦
          let (text, holds) = suffices _ search_text reply replied in
          (
            (task.agent_id, text) ∷ [],
            rw (y, body_of-Holds zlib fuel reply.body reply.content_encoding text holds) refl,
            inl (
              text,
              refl,
              record {
                search = search;
                search_text = search_text;
                reply = reply;
                with_paths = with_paths;
                dumped = written;
                replied = replied;
                succeeded = ground (arith, y);
                contained = holds;
              },
            ),
          )
      | inr n ↦ (
        [],
        rw n refl,
        inr (
          refl,
          λ text r.
              (let same_search : r.search ≡ search = cc in
                let same_text : r.search_text ≡ search_text = cc in
                let same_reply : r.reply ≡ reply = cc in
                let status : reply.status ≡ 200 = cc in ground (arith, status, n)),
        ),
      )
    ]

    posted-Adds :
        (search_text : Bytes) (o : Option Reply)
        → json.dump search ≡ some search_text
        → client.post (agent_url (codes "/log/search") task.address prefix debug_param) search_text
          ≡ o
        → AddedBy task (no_record (called o >>= record_of zlib fuel task.agent_id))
    unfolding no_record
    posted-Adds search_text none written e = (
      [],
      refl,
      inr (
        refl,
        λ text r.
            (let same_search : r.search ≡ search = cc in
              let same_text : r.search_text ≡ search_text = cc in cc),
      ),
    )
    posted-Adds search_text (some reply) written e = record_of-Adds search_text reply written e

    written-Adds :
        (o : Option Bytes)
        → json.dump search ≡ o
        → AddedBy task (
            no_record (
              called o >>= λ search_text.
              called (
                client.post
                  (agent_url (codes "/log/search") task.address prefix debug_param)
                  search_text)
              >>= record_of zlib fuel task.agent_id))
    unfolding no_record
    written-Adds none e =
        ([], refl, inr (refl, λ text r. (let same_search : r.search ≡ search = cc in cc)))
    written-Adds (some search_text) e = posted-Adds search_text _ e refl

  searched-Adds :
      Suffices zlib fuel client
      → (task : Task) (o : Option json.Value)
      → json.subscript_assign (codes "paths") (json.array (map json.string task.paths)) jreq_body
        ≡ o
      → AddedBy task (
          no_record (
            (called o >>= λ search. called (json.dump search)) >>= λ search_text.
            called (
              client.post
                (agent_url (codes "/log/search") task.address prefix debug_param)
                search_text)
            >>= record_of zlib fuel task.agent_id))
  unfolding no_record
  searched-Adds suffices task none e =
      ([], refl, inr (refl, λ text r. (let with_paths = r.with_paths in cc)))
  searched-Adds suffices task (some search) e = written-Adds suffices task search e _ refl

  run_tasks-AllAdd :
      Suffices zlib fuel client
      → (tasks : List Task)
      → (added : List Records) × (run_tasks json zlib fuel client prefix debug_param jreq_body tasks
          ≡ returned added)
        × AllAdd tasks added
  unfolding run_tasks run_task search_body
  run_tasks-AllAdd suffices [] = ([], refl, refl)
  run_tasks-AllAdd suffices (task ∷ tasks) =
      let (records, e, adds) = searched-Adds suffices task _ refl in
      let (added, later, all) = run_tasks-AllAdd suffices tasks in
      (records ∷ added, rw (e, later) refl, (adds, all))

  -- With a sort that orders by the id, where each file is one of an agent of the list, no id is
  -- empty and the fuel suffices for what the agents reply: whatever the order in which the
  -- coroutines end, the search returns, and its records are those that the requests add, in the
  -- order of the ids. A request adds the text of its reply, unpacked, under the id of the agent, if
  -- its body can be made and written, there is a reply, and the status of that is 200; otherwise it
  -- adds nothing, and the other requests add what they add.
  pub get_agent_search-AllAdd :
      (sort : List AgentFileIndex → List AgentFileIndex)
      → ((indexes : List AgentFileIndex) → Permᴰ indexes (sort indexes))
      → ((indexes : List AgentFileIndex) → Ascending (sort indexes))
      → (executor : List Records → Records)
      → ((added : List Records) → Permᴰ (concat added) (executor added))
      → Suffices zlib fuel client
      → (agents : List AgentInfo) (indexes : List AgentFileIndex) → All (Listed agents) indexes
      → All (λ index. index.agent_id ≢ []) indexes
      → (tasks : List Task) × (search_tasks sort agents indexes ≡ some tasks)
        × (added : List Records) × (get_agent_search json zlib fuel sort executor client prefix
              jreq_body debug_param agents indexes
            ≡ returned (concat added))
        × AllAdd tasks added
  get_agent_search-AllAdd sort p s executor q suffices agents indexes known ids =
      let (tasks, e, same) =
        get_agent_search-run_tasks json zlib fuel client prefix debug_param jreq_body sort p s
          executor q agents indexes known ids in
      let (added, ran, all) = run_tasks-AllAdd suffices tasks in
      (tasks, e, added, rw (same, ran) refl, all)
