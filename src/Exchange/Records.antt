-- ===== src/Exchange/Records.antt =====
-- The records of an agent's search reach the gateway: `search` of src/agent/agent_handler.cpp, and
-- the loop over the records in `search` of src/gateway/gateway_handler.cpp.
use drlog_search.Base.{
  ℕ, true, some, List, [], ◌∷◌, ◌++◌, Bytes, codes, ◌==◌, if◌then◌else◌, ◌≡◌, refl, inl, inr, arith,
  Bool-cases, map, eqb, All, All-append,
}
use drlog_search.Json.{JsonLaws}
use drlog_search.Table.{lookup}
use drlog_search.Util.Gzip.RoundTrip.{IsLossless}
use drlog_search.Http.{returned, ◌>>=◌, Request, Response, packed}
use drlog_search.Search.Context.{LogLine, FileMatches}
use drlog_search.Search.Run.{SearchResult}
use drlog_search.Gateway.Dispatch.{Records, record_of}
use drlog_search.Gateway.Handlers.{Host}
use drlog_search.Gateway.Handlers.Query.{merge, parsed_records, records_in, has_failed, tagged}
use drlog_search.Agent.Handlers.{Platform}
use drlog_search.Agent.Handlers.Query.{
  line_item, last_line, record_item, record_items, results, respond,
}
use drlog_search.Exchange.{transmitted}
use drlog_search.Exchange.Bodies.{Arrives, packed-Arrives, packed-encoding}

-- An agent whose libraries are those of the gateway.
abbrev pub agent_of : Host → Platform → Platform
agent_of host platform = record platform { json = host.json; zlib = host.zlib }

module _ (host : Host) (platform : Platform) (laws : JsonLaws host.json) where
  open host use {json}
  open json use {Value}

  lines-plain :
      (lines : List LogLine) → All laws.IsPlain (map (line_item (agent_of host platform)) lines)
  unfolding line_item
  lines-plain [] = tt
  lines-plain (l ∷ lines) =
      (laws.object_plain _ (laws.string_plain _, (laws.number_plain _, tt)), lines-plain lines)

  record_item-plain :
      (fm : FileMatches) (lines : List LogLine)
      → All laws.IsPlain (record_item (agent_of host platform) fm lines)
  unfolding record_item
  record_item-plain fm [] = tt
  record_item-plain fm (front ∷ lines) = (
    laws.object_plain _ (
      laws.string_plain _,
      (
        laws.signed_plain _,
        (
          laws.string_plain _,
          (
            laws.array_plain _ (lines-plain (front ∷ lines)),
            (laws.number_plain _, (laws.number_plain _, tt)),
          ),
        ),
      ),
    ),
    tt,
  )

  record_items-plain :
      (matches : List FileMatches)
      → All laws.IsPlain (record_items (agent_of host platform) matches)
  unfolding record_items
  record_items-plain [] = tt
  record_items-plain (fm ∷ matches) =
      All-append laws.IsPlain
        (if fm.status == 0 then record_item (agent_of host platform) fm fm.lines else []) _
        (elim (Bool-cases (fm.status == 0)) [
          | inl y ↦ rw y (record_item-plain fm fm.lines)
          | inr n ↦ rw n tt
        ])
        (record_items-plain matches)

  results-plain : (result : SearchResult) → laws.IsPlain (results (agent_of host platform) result)
  unfolding results
  results-plain result = laws.object_plain _ (
    laws.signed_plain _,
    (laws.string_plain _, (laws.array_plain _ (record_items-plain result.matches), tt)),
  )

  merge-results :
      (agent_id text : Bytes) (result : SearchResult) (rest : Records)
      → result.status ≡ 0
      → json.dump (results (agent_of host platform) result) ≡ some text
      → merge host ((agent_id, text) ∷ rest) ≡ (
          tagged host agent_id (record_items (agent_of host platform) result.matches) >>= λ records.
          merge host rest >>= λ later. returned (records ++ later))
  unfolding merge parsed_records records_in has_failed results lookup eqb
  merge-results agent_id text result rest z d =
      let items = record_items (agent_of host platform) result.matches in
      let entries : List (Bytes × Value) =
        (codes "status", json.signed result.status)
        ∷ (codes "error_msg", json.string result.error_msg)
        ∷ (codes "records", json.array items)
        ∷ [] in
      let parsed : json.parse text ≡ some (json.object entries) =
        laws.parse-dump _ text (results-plain result) d in
      let status =
        laws.subscript-object (codes "status") entries (json.signed result.status) refl in
      let records : json.member (codes "records") (json.object entries) ≡ some (json.array items) =
        laws.member-object (codes "records") entries in
      rw
        (
          parsed,
          status,
          laws.is_number-signed result.status,
          laws.get_int-signed result.status (omega arith),
          records,
          laws.is_array-array items,
          laws.elements-array items,
          z,
        )
        refl

  -- The record of a file as the gateway has it, with the id of the agent.
  abbrev pub sent : Bytes → FileMatches → LogLine → List LogLine → Value
  sent agent_id fm front lines = json.object (
      (codes "agent", json.string agent_id)
      ∷ (codes "path", json.string fm.path)
      ∷ (codes "status", json.signed fm.status)
      ∷ (codes "error_msg", json.string fm.error_msg)
      ∷ (codes "lines", json.array (map (line_item (agent_of host platform)) (front ∷ lines)))
      ∷ (codes "start_time", json.number front.timestamp)
      ∷ (codes "end_time", json.number (last_line (agent_of host platform) front lines).timestamp)
      ∷ [])

  -- One record for each file that was searched without an error and has lines.
  abbrev pub sent_in : Bytes → FileMatches → List LogLine → List Value → List Value
  sent_in agent_id fm [] later = later
  sent_in agent_id fm (front ∷ lines) later = sent agent_id fm front lines ∷ later

  abbrev pub all_sent : Bytes → List FileMatches → List Value
  all_sent agent_id [] = []
  all_sent agent_id (fm ∷ matches) =
      if fm.status == 0
      then sent_in agent_id fm fm.lines (all_sent agent_id matches)
      else all_sent agent_id matches

  tagged-lines :
      (agent_id : Bytes) (fm : FileMatches) (lines : List LogLine) (items later : List Value)
      → tagged host agent_id items ≡ returned later
      → tagged host agent_id (record_item (agent_of host platform) fm lines ++ items)
        ≡ returned (sent_in agent_id fm lines later)
  unfolding record_item tagged lookup eqb
  tagged-lines agent_id fm [] items later h = h
  tagged-lines agent_id fm (front ∷ lines) items later h =
      let entries : List (Bytes × Value) =
        (codes "path", json.string fm.path)
        ∷ (codes "status", json.signed fm.status)
        ∷ (codes "error_msg", json.string fm.error_msg)
        ∷ (codes "lines", json.array (map (line_item (agent_of host platform)) (front ∷ lines)))
        ∷ (codes "start_time", json.number front.timestamp)
        ∷ (codes "end_time", json.number (last_line (agent_of host platform) front lines).timestamp)
        ∷ [] in
      rw (laws.subscript_assign-object (codes "agent") (json.string agent_id) entries refl, h) refl

  tagged-all_sent :
      (agent_id : Bytes) (matches : List FileMatches)
      → tagged host agent_id (record_items (agent_of host platform) matches)
        ≡ returned (all_sent agent_id matches)
  unfolding record_items tagged
  tagged-all_sent agent_id [] = refl
  tagged-all_sent agent_id (fm ∷ matches) =
      let items = record_items (agent_of host platform) matches in
      let ih = tagged-all_sent agent_id matches in
      elim (Bool-cases (fm.status == 0)) [
        | inl y ↦ rw y (tagged-lines agent_id fm fm.lines items (all_sent agent_id matches) ih)
        | inr n ↦ rw n ih
      ]

  -- With zlib lossless and nlohmann::json as it promises: where an agent's search ends well and its
  -- result can be written as JSON, the agent answers, and the gateway, with calls of `inflate`
  -- enough, keeps the written result under the agent's id, whatever encoding was agreed on; from it
  -- the gateway takes one record for each file that was searched without an error and has lines, in
  -- the order of the matches, each with the id of the agent, the path, the lines, and the times of
  -- its first and its last line, and puts them before the records of the agents behind this one.
  pub respond-merge :
      IsLossless host.zlib
      → (req : Request) (res : Response) (result : SearchResult) (agent_id text : Bytes)
        (rest : Records)
      → res.result ≡ 200
      → res.content_encoding ≡ []
      → result.status ≡ 0
      → json.dump (results (agent_of host platform) result) ≡ some text
      → (r : Response) × (respond (agent_of host platform) req res result ≡ returned r)
        × ((calls : ℕ) × (record_of host.zlib calls agent_id (transmitted r)
              ≡ returned ((agent_id, text) ∷ [])))
        × (merge host ((agent_id, text) ∷ rest)
            ≡ (merge host rest >>= λ later. returned (all_sent agent_id result.matches ++ later)))
  unfolding respond results record_of Arrives
  respond-merge lossless req res result agent_id text rest ok plain z d =
      let p = packed host.zlib text req.accept_encoding in
      let (calls, arrived) = packed-Arrives host.zlib lossless text req.accept_encoding in
      (
        record res {
          body = p.0;
          content_encoding = if eqb p.1 (codes "gzip") then p.1 else res.content_encoding;
          content_type = codes "application/json";
          is_prepared = true;
        },
        rw (laws.dump_replace_valid _ text d, z) refl,
        (calls, rw (ok, plain, packed-encoding host.zlib text req.accept_encoding, arrived) refl),
        rw (merge-results agent_id text result rest z d, tagged-all_sent agent_id result.matches)
            refl,
      )
