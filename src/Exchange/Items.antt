-- ===== src/Exchange/Items.antt =====
-- A file in the list of an agent: the item that `list` of src/agent/agent_handler.cpp writes, read
-- by the loop in `get_agent_log_lists` of src/gateway/gateway_handler.cpp.
use drlog_search.Base.{
  ℕ, ◌%◌, ◌^◌, ◌<◌, true, Option, none, some, List, [], ◌∷◌, ◌++◌, Bytes, codes, ltb, if◌then◌else◌,
  is_empty, ◌≡◌, refl, ◌∙◌, arith, eqb, lt→ltb,
}
use drlog_search.Json.{JsonLaws}
use drlog_search.Table.{lookup}
use drlog_search.Http.{returned}
use drlog_search.Indexer.Info.{TimeIndex, FileIndex, FileInfo}
use drlog_search.Gateway.Listing.{AgentFileIndex, to_uint64, index_of}
use drlog_search.Gateway.Handlers.{Host}
use drlog_search.Agent.Handlers.{Platform, time_range, ends_of, last_of, range_entries, file_item}
use drlog_search.Exchange.Records.{agent_of}

-- The times of the first and the last entry of an index, 0 if it has none.
abbrev pub first_time : List TimeIndex → ℕ
first_time [] = 0
first_time (t ∷ ts) = t.timestamp

abbrev pub last_time : List TimeIndex → ℕ
last_time [] = 0
last_time (t ∷ ts) = (last_of t ts).timestamp

abbrev pub entries_of : Option FileIndex → List TimeIndex
entries_of none = []
entries_of (some index) = index.time_indexes

-- What the gateway should know of an agent's file.
abbrev pub known_of : Bytes → FileInfo → AgentFileIndex
known_of agent_id fi = record {
  path = fi.fullpath;
  size = fi.size;
  mtime = fi.mtime;
  etag = fi.etag;
  start_time = first_time (entries_of fi.file_index);
  end_time = last_time (entries_of fi.file_index);
  agent_id = agent_id;
}

-- The numbers of a file that fit an `int`.
pub record Fits (fi : FileInfo) : Type 0 where
  pub size_fits : fi.size < 2 ^ 31
  pub mtime_fits : fi.mtime < 2 ^ 31
  pub first_fits : first_time (entries_of fi.file_index) < 2 ^ 31
  pub last_fits : last_time (entries_of fi.file_index) < 2 ^ 31

to_uint64-fits : (n : ℕ) → n < 2 ^ 31 → to_uint64 (n % 2 ^ 32) ≡ n
unfolding to_uint64
to_uint64-fits n h =
    let e : n % 2 ^ 32 ≡ n = omega arith in
    let t : ltb n (2 ^ 31) ≡ true = lt→ltb _ _ h in rw (e, t) refl

module _ (host : Host) (platform : Platform) (laws : JsonLaws host.json) where
  open host use {json}
  open json use {Value}

  -- The entries of an item.
  abbrev pub item_of : FileInfo → List (Bytes × Value)
  item_of fi =
      (codes "path", json.string fi.fullpath)
        ∷ (codes "size", json.number fi.size)
        ∷ (codes "mtime", json.signed fi.mtime)
        ∷ (if is_empty fi.etag then [] else (codes "etag", json.string fi.etag) ∷ [])
      ++ range_entries (agent_of host platform) (time_range fi.file_index)

  abbrev numbered : Option ℕ → Option Value
  numbered none = none
  numbered (some n) = some (json.number n)

  abbrev or_zero : Option ℕ → ℕ
  or_zero none = 0
  or_zero (some n) = n

  value_int-numbered :
      (key : Bytes) (entries : List (Bytes × Value)) (o : Option ℕ)
      → lookup key entries ≡ numbered o
      → json.value_int key 0 (json.object entries) ≡ some (or_zero o % 2 ^ 32)
  value_int-numbered key entries none h = laws.value_int-none key 0 entries h
  value_int-numbered key entries (some n) h = laws.value_int-number key 0 entries n h

  abbrev front_of : Option (TimeIndex × TimeIndex) → Option ℕ
  front_of none = none
  front_of (some (front, back)) = some front.timestamp

  abbrev back_of : Option (TimeIndex × TimeIndex) → Option ℕ
  back_of none = none
  back_of (some (front, back)) = some back.timestamp

  lookup-etag :
      (etag : Bytes) (o : Option (TimeIndex × TimeIndex))
      → lookup (codes "etag") (
          (if is_empty etag then [] else (codes "etag", json.string etag) ∷ [])
          ++ range_entries (agent_of host platform) o)
        ≡ (if is_empty etag then none else some (json.string etag))
  unfolding lookup eqb range_entries
  lookup-etag [] none = refl
  lookup-etag [] (some o) = refl
  lookup-etag (c ∷ etag) o = refl

  lookup-times :
      (etag : Bytes) (o : Option (TimeIndex × TimeIndex))
      → (lookup (codes "start_time") (
            (if is_empty etag then [] else (codes "etag", json.string etag) ∷ [])
            ++ range_entries (agent_of host platform) o)
          ≡ numbered (front_of o))
        × (lookup (codes "end_time") (
              (if is_empty etag then [] else (codes "etag", json.string etag) ∷ [])
              ++ range_entries (agent_of host platform) o)
            ≡ numbered (back_of o))
  unfolding lookup eqb range_entries
  lookup-times [] none = (refl, refl)
  lookup-times [] (some o) = (refl, refl)
  lookup-times (c ∷ etag) none = (refl, refl)
  lookup-times (c ∷ etag) (some o) = (refl, refl)

  value_string-etag :
      (entries : List (Bytes × Value)) (etag : Bytes)
      → lookup (codes "etag") entries ≡ (if is_empty etag then none else some (json.string etag))
      → json.value_string (codes "etag") [] (json.object entries) ≡ some etag
  value_string-etag entries [] h = laws.value_string-none (codes "etag") [] entries h
  value_string-etag entries (c ∷ etag) h =
      laws.value_string-some (codes "etag") [] entries (c ∷ etag) h

  times_of :
      (index : Option FileIndex)
      → (or_zero (front_of (time_range index)) ≡ first_time (entries_of index))
        × (or_zero (back_of (time_range index)) ≡ last_time (entries_of index))
  unfolding time_range ends_of
  times_of none = (refl, refl)
  times_of (some index) = ends index.time_indexes
    where
      ends :
          (ts : List TimeIndex)
          → (or_zero (front_of (ends_of ts)) ≡ first_time ts)
            × (or_zero (back_of (ends_of ts)) ≡ last_time ts)
      ends [] = (refl, refl)
      ends (t ∷ ts) = (refl, refl)

  index_of-fields :
      (agent_id path etag : Bytes) (size mtime start_time end_time : ℕ) (item : Value)
      → json.value_string (codes "path") [] item ≡ some path
      → json.value_int (codes "size") 0 item ≡ some size
      → json.value_int (codes "mtime") 0 item ≡ some mtime
      → json.value_string (codes "etag") [] item ≡ some etag
      → json.value_int (codes "start_time") 0 item ≡ some start_time
      → json.value_int (codes "end_time") 0 item ≡ some end_time
      → index_of json agent_id item
        ≡ returned (record {
          path = path;
          size = to_uint64 size;
          mtime = to_uint64 mtime;
          etag = etag;
          start_time = to_uint64 start_time;
          end_time = to_uint64 end_time;
          agent_id = agent_id;
        })
  unfolding index_of
  index_of-fields agent_id path etag size mtime start_time end_time item p s m e a b =
      rw (p, s, m, e, a, b) refl

  pub index_of-file_item :
      (agent_id : Bytes) (fi : FileInfo)
      → Fits fi
      → index_of json agent_id (file_item (agent_of host platform) fi)
        ≡ returned (known_of agent_id fi)
  unfolding file_item lookup eqb
  index_of-file_item agent_id fi f =
      let o = time_range fi.file_index in
      let entries = item_of fi in
      let (t, u) = lookup-times fi.etag o in
      let (front, back) = times_of fi.file_index in
      index_of-fields agent_id fi.fullpath fi.etag (fi.size % 2 ^ 32) (fi.mtime % 2 ^ 32)
        (or_zero (front_of o) % 2 ^ 32) (or_zero (back_of o) % 2 ^ 32) (json.object entries)
        (laws.value_string-some (codes "path") [] entries fi.fullpath refl)
        (laws.value_int-number (codes "size") 0 entries fi.size refl)
        (laws.value_int-signed (codes "mtime") 0 entries fi.mtime refl)
        (value_string-etag entries fi.etag (lookup-etag fi.etag o))
        (value_int-numbered (codes "start_time") entries (front_of o) t)
        (value_int-numbered (codes "end_time") entries (back_of o) u)
      ∙ rw
          (
            front,
            back,
            to_uint64-fits fi.size f.size_fits,
            to_uint64-fits fi.mtime f.mtime_fits,
            to_uint64-fits (first_time (entries_of fi.file_index)) f.first_fits,
            to_uint64-fits (last_time (entries_of fi.file_index)) f.last_fits,
          )
          refl
