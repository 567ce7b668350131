-- ===== src/Exchange/Lists.antt =====
-- The list of an agent's files reaches the gateway: `list` of src/agent/agent_handler.cpp, and the
-- loop over the items in `get_agent_log_lists` of src/gateway/gateway_handler.cpp.
use drlog_search.Base.{
  true, Option, none, some, List, [], ◌∷◌, Bytes, codes, if◌then◌else◌, is_empty, ◌≡◌, refl, map,
  All, All-append,
}
use drlog_search.Json.{JsonLaws}
use drlog_search.Http.{returned, Response}
use drlog_search.Indexer.Info.{TimeIndex, FileInfo}
use drlog_search.Gateway.Listing.{push_index, indexes_of, parsed_list, replied_list}
use drlog_search.Gateway.Handlers.{Host}
use drlog_search.Agent.Handlers.{Platform, time_range, range_entries, file_item, listed}
use drlog_search.Exchange.{transmitted}
use drlog_search.Exchange.Records.{agent_of}
use drlog_search.Exchange.Items.{known_of, Fits, item_of, index_of-file_item}

module _ (host : Host) (platform : Platform) (laws : JsonLaws host.json) where
  open host use {json}
  open json use {Value}

  indexes_of-file_item :
      (agent_id : Bytes) (files : List FileInfo)
      → All Fits files
      → indexes_of json agent_id (map (file_item (agent_of host platform)) files)
        ≡ map (known_of agent_id) files
  unfolding indexes_of push_index
  indexes_of-file_item agent_id [] h = refl
  indexes_of-file_item agent_id (fi ∷ files) h =
      rw
        (
          index_of-file_item host platform laws agent_id fi h.0,
          indexes_of-file_item agent_id files h.1,
        )
        refl

  range_entries-plain :
      (o : Option (TimeIndex × TimeIndex))
      → All (λ entry. laws.IsPlain entry.1) (range_entries (agent_of host platform) o)
  unfolding range_entries
  range_entries-plain none = tt
  range_entries-plain (some o) = (laws.number_plain _, (laws.number_plain _, tt))

  etag_entry-plain :
      (etag : Bytes)
      → All
          (λ (entry : Bytes × Value). laws.IsPlain entry.1)
          (if is_empty etag then [] else (codes "etag", json.string etag) ∷ [])
  etag_entry-plain [] = tt
  etag_entry-plain (c ∷ etag) = (laws.string_plain _, tt)

  items-plain :
      (files : List FileInfo) → All laws.IsPlain (map (file_item (agent_of host platform)) files)
  unfolding file_item
  items-plain [] = tt
  items-plain (fi ∷ files) = (
    laws.object_plain (item_of host platform laws fi) (
      laws.string_plain _,
      (
        laws.number_plain _,
        (
          laws.signed_plain _,
          All-append (λ entry. laws.IsPlain entry.1)
              (if is_empty fi.etag then [] else (codes "etag", json.string fi.etag) ∷ [])
              (range_entries (agent_of host platform) (time_range fi.file_index))
              (etag_entry-plain fi.etag) (range_entries-plain (time_range fi.file_index)),
        ),
      ),
    ),
    items-plain files,
  )

  -- With nlohmann::json as it promises: where an agent lists its files, each with numbers that fit
  -- an `int`, and the list can be written as JSON, the gateway takes from the answer exactly these
  -- files, in their order, each with its path, size, times and tag, the range of its index, and the
  -- agent's id.
  pub listed-known_of :
      (res : Response) (fi : FileInfo) (files : List FileInfo) (agent_id text : Bytes)
      → All Fits (fi ∷ files)
      → res.result ≡ 200
      → res.content_encoding ≡ []
      → json.dump (json.array (map (file_item (agent_of host platform)) (fi ∷ files))) ≡ some text
      → (r : Response) × (listed (agent_of host platform) res (fi ∷ files) ≡ returned r)
        × (replied_list json agent_id (some (transmitted r)) ≡ map (known_of agent_id) (fi ∷ files))
  unfolding listed replied_list parsed_list
  listed-known_of res fi files agent_id text h ok plain d =
      let items = map (file_item (agent_of host platform)) (fi ∷ files) in
      let parsed =
        laws.parse-dump (json.array items) text (laws.array_plain items (items-plain (fi ∷ files)))
          d in
      (
        record res { body = text; content_type = codes "application/json"; is_prepared = true },
        rw d refl,
        rw (ok, parsed, laws.is_array-array items, laws.elements-array items)
            (indexes_of-file_item agent_id (fi ∷ files) h),
      )
