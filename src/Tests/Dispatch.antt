-- ===== src/Tests/Dispatch.antt =====
-- The gateway between two agents (src/gateway/gateway_handler.cpp) on small inputs.
use drlog_search.Base.{
  false, none, some, List, [], ◌∷◌, Bytes, codes, ◌≡◌, refl, ◌≢◌, All, Permᴰ, Permᴰ_refl, subst,
  eqb,
}
use drlog_search.Table.{lookup}
use drlog_search.Http.{returned, post, Request, Response, Client}
use drlog_search.Gateway.Agents.{AgentInfo, Agents, add_agent}
use drlog_search.Gateway.Agents.Lifetime.{Reachable, announce, Reachable-Registered}
use drlog_search.Gateway.Batches.{concat}
use drlog_search.Gateway.Listing.{AgentFileIndex, batch_list, get_agent_log_lists}
use drlog_search.Gateway.Listing.Exact.{get_agent_log_lists_lem}
use drlog_search.Gateway.Dispatch.{Task, Records, search_tasks, get_agent_search}
use drlog_search.Gateway.Dispatch.Tasks.{Listed, Dispatched, search_tasks-Dispatched}
use drlog_search.Gateway.Dispatch.Replies.{Holds, Suffices, AllAdd, get_agent_search-AllAdd}
use drlog_search.Gateway.Handlers.Sorting.{Timed}
use drlog_search.Gateway.Handlers.{Host}
use drlog_search.Gateway.Handlers.Query.{search}
use drlog_search.Gateway.Handlers.Total.{Sound, RepliesTimed}
use drlog_search.Gateway.Handlers.Statuses.{refusal, Meets, search-Meets}
use drlog_search.Tests.Json.{texts, texts-Assigns, object_of}
use drlog_search.Tests.Util.{stored}
use drlog_search.Tests.Sort.{sort_indexes, sort_indexes-Permᴰ, sort_indexes-Ascending}

abbrev first_agent : AgentInfo
first_agent = record { address = codes "a:1"; agent_id = codes "1"; last_announce = 5 }

abbrev second_agent : AgentInfo
second_agent = record { address = codes "b:1"; agent_id = codes "2"; last_announce = 5 }

abbrev two_agents : List AgentInfo
two_agents = first_agent ∷ second_agent ∷ []

abbrev file : Bytes → Bytes → AgentFileIndex
file path agent_id = record {
  path = path;
  size = 3;
  mtime = 5;
  etag = [];
  start_time = 1;
  end_time = 9;
  agent_id = agent_id;
}

abbrev three_files : List AgentFileIndex
three_files =
    file (codes "/x") (codes "2")
    ∷ file (codes "/y") (codes "1")
    ∷ file (codes "/z") (codes "2")
    ∷ []

three_files-Listed : All (Listed two_agents) three_files
unfolding Listed eqb
three_files-Listed = ((second_agent, refl), ((first_agent, refl), ((second_agent, refl), tt)))

three_files-ids : All (λ index. index.agent_id ≢ []) three_files
three_files-ids = ((λ e. cc), ((λ e. cc), ((λ e. cc), tt)))

search_tasks-Dispatched_example :
    (tasks : List Task) × (search_tasks sort_indexes two_agents three_files ≡ some tasks)
    × Dispatched two_agents three_files tasks
search_tasks-Dispatched_example =
    search_tasks-Dispatched sort_indexes sort_indexes-Permᴰ sort_indexes-Ascending two_agents
      three_files three_files-Listed three_files-ids

abbrev listed_item : Bytes
listed_item = object_of (
    (codes "path", texts.string (codes "/x"))
    ∷ (codes "start_time", texts.number 1)
    ∷ (codes "end_time", texts.number 9)
    ∷ [])

abbrev timed_record : Bytes
timed_record = object_of ((codes "start_time", texts.number 1) ∷ [])

abbrev result_text : Bytes
result_text =
    object_of
      ((codes "status", texts.signed 0) ∷ (codes "records", texts.array (timed_record ∷ [])) ∷ [])

-- Every agent lists one file, and answers a search with one record.
abbrev answering : Client
answering = record {
  get = λ url.
      some
        (record { status = 200; body = texts.array (listed_item ∷ []); content_encoding = none });
  post = λ url body. some (record { status = 200; body = result_text; content_encoding = none });
}

answering-Suffices : Suffices stored 1 answering
answering-Suffices url body reply h =
    let e : reply ≡ record { status = 200; body = result_text; content_encoding = none } = cc in
    rw e (result_text, refl)

concat-Permᴰ {ℓ} : {A : Type ℓ} (added : List (List A)) → Permᴰ (concat added) (concat added)
concat-Permᴰ added = Permᴰ_refl (concat added)

get_agent_search-AllAdd_example :
    (tasks : List Task) × (search_tasks sort_indexes two_agents three_files ≡ some tasks)
    × (added : List Records) × (get_agent_search texts stored 1 sort_indexes concat answering
          (codes "/")
          (object_of [])
          []
          two_agents
          three_files
        ≡ returned (concat added))
    × AllAdd texts stored 1 answering (codes "/") [] (object_of []) tasks added
get_agent_search-AllAdd_example =
    get_agent_search-AllAdd texts stored 1 answering (codes "/") [] (object_of []) sort_indexes
      sort_indexes-Permᴰ sort_indexes-Ascending concat concat-Permᴰ answering-Suffices two_agents
      three_files three_files-Listed three_files-ids

get_agent_log_lists_lem_example :
    (out : List AgentFileIndex) × (get_agent_log_lists texts concat answering
        (codes "/")
        []
        two_agents
      ≡ returned out)
    × Permᴰ (batch_list texts answering (codes "/") [] two_agents) out
    × All (Listed two_agents) out
get_agent_log_lists_lem_example =
    get_agent_log_lists_lem texts concat concat-Permᴰ answering (codes "/") [] two_agents

abbrev pub host : Host
host = record {
  json = texts;
  zlib = stored;
  fuel = 1;
  junk = 0;
  client = answering;
  read_file = λ path. none;
  list_executor = concat;
  search_executor = concat;
  sort = sort_indexes;
  sort_records = λ less records. returned records;
}

host-Sound : Sound host
host-Sound = record {
  list_executor_sound = concat-Permᴰ;
  search_executor_sound = concat-Permᴰ;
  sort_permutes = sort_indexes-Permᴰ;
  sort_orders = sort_indexes-Ascending;
  fuel_suffices = answering-Suffices;
  json_assigns = texts-Assigns;
  sort_records_ends = λ less key records h. (records, refl, Permᴰ_refl records);
}

result_text-Timed : Timed texts result_text
unfolding lookup eqb
result_text-Timed jfm records parsed found =
    let e : jfm ≡ result_text = cc in
    let same : records ≡ texts.array (timed_record ∷ []) = listed e found in
    rw same ((texts.number 1, refl, refl), tt)
  where
    listed :
        jfm ≡ result_text
        → texts.member (codes "records") jfm ≡ some records
        → records ≡ texts.array (timed_record ∷ [])
    listed e found = cc

host-RepliesTimed : RepliesTimed host
host-RepliesTimed url body reply text replied holds =
    let e : reply ≡ record { status = 200; body = result_text; content_encoding = none } = cc in
    let same : result_text ≡ text =
      subst (λ r. Holds stored 1 r.body r.content_encoding text) e holds in
    subst (Timed texts) same result_text-Timed

-- A search for all files of a minute.
abbrev pub request : Request
request = record {
  verb = post;
  path = codes "/log/search";
  prefix_path = codes "/log/search";
  param = λ key. codes "/";
  body = object_of (
      (codes "querys", texts.array [])
      ∷ (codes "start_time", texts.number 0)
      ∷ (codes "end_time", texts.number 60)
      ∷ []);
  accept_encoding = none;
}

abbrev pub response : Response
response = record {
  result = 200;
  body = [];
  content_type = [];
  content_encoding = [];
  is_prepared = false;
}

abbrev one_agent : Agents
one_agent = add_agent 5 (codes "a:1") []

search-Meets_example :
    (r : Response) × (search host 10 request response one_agent ≡ some r)
    × Meets response (refusal host 10 request one_agent) r
search-Meets_example =
    search-Meets host 10 request response one_agent host-Sound host-RepliesTimed
      (Reachable-Registered one_agent (announce 5 (codes "a:1") [] Reachable.start))
