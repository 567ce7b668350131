-- ===== src/Indexer/Cache.antt =====
-- `save_index_to_cache` and `load_index_from_cache` of src/agent/indexer.cpp. The cache file is its
-- text; the order in which `std::unordered_map` is run through is a parameter.
pub mod RoundTrip
use drlog_search.Base.{
  ℕ, Bool, true, false, not, ◌&&◌, ◌||◌, Option, none, some, List, [], ◌∷◌, ◌++◌, Bytes, codes,
  ◌==◌, if◌then◌else◌, is_empty, map, eqb,
}
use drlog_search.Json.{Json}
use drlog_search.Table.{lookup, insert}
use drlog_search.Indexer.Info.{TimeIndex, FileIndex, RootPath, FileInfo}
use drlog_search.Indexer.Files.{Files}

-- `emplace`, which leaves a key that is there as it is.
unfoldable pub emplaced {ℓ} :
    {A : Type ℓ} → Bytes → A → List (Bytes × A) → Option A → List (Bytes × A)
emplaced key value entries none = insert key value entries
emplaced key value entries (some there) = entries

unfoldable pub emplace {ℓ} : {A : Type ℓ} → Bytes → A → List (Bytes × A) → List (Bytes × A)
unfolding emplaced
emplace key value entries = emplaced key value entries (lookup key entries)

-- `root_paths`
unfoldable pub map_roots : List (Bytes × RootPath) → List RootPath → List (Bytes × RootPath)
unfolding emplace
map_roots root_paths [] = root_paths
map_roots root_paths (rp ∷ roots) = map_roots (emplace rp.path rp root_paths) roots

module _ (json : Json) where
  open json use {Value}

  unfoldable pub time_index_item : TimeIndex → Value
  time_index_item ti =
      json.object (
        (codes "timestamp", json.number ti.timestamp)
        ∷ (codes "offset", json.number ti.offset)
        ∷ [])

  unfoldable pub index_item : FileIndex → Value
  unfolding time_index_item
  index_item index = json.object (
      (codes "index_etag", json.string index.index_etag)
      ∷ (codes "last_index_time", json.signed index.last_index_time)
      ∷ (codes "time_indexes", json.array (map time_index_item index.time_indexes))
      ∷ [])

  unfoldable pub index_entry : Option FileIndex → List (Bytes × Value)
  unfolding index_item
  index_entry none = []
  index_entry (some index) = (codes "file_index", index_item index) ∷ []

  unfoldable pub file_entry : FileInfo → Value
  unfolding index_entry
  file_entry fi = json.object (
      (codes "fullpath", json.string fi.fullpath)
      ∷ (codes "name", json.string fi.name)
      ∷ (codes "dir", json.string fi.dir)
      ∷ (codes "size", json.number fi.size)
      ∷ (codes "mtime", json.signed fi.mtime)
      ∷ (codes "ftype", json.string fi.file_type)
      ∷ (codes "etag", json.string fi.etag)
      ∷ (codes "inode", json.number fi.inode)
      ∷ (codes "root_path", json.string fi.root_path.path)
      ∷ index_entry fi.file_index)

  unfoldable pub file_entries : Files → List Value
  unfolding file_entry
  file_entries [] = []
  file_entries ((path, fi) ∷ files) = file_entry fi ∷ file_entries files

  -- The new text of the cache file; `none` is that it stays as it is.
  unfoldable pub save_index_to_cache : (Files → Files) → ℕ → Files → Option Bytes
  unfolding file_entries
  save_index_to_cache order updated_index_count files =
      if updated_index_count == 0
      then none
      else json.dump_indented (json.array (file_entries (order files)))

  infixl 5 ◌>>=◌
  abbrev ◌>>=◌ {ℓ κ} : {A : Type ℓ} {B : Type κ} → Option A → (A → Option B) → Option B
  none >>= f = none
  some a >>= f = f a

  unfoldable pub load_time_index : Value → Option TimeIndex
  load_time_index item = do
    timestamp ← json.value_uint64 (codes "timestamp") 0 item
    offset ← json.value_uint64 (codes "offset") 0 item
    some (record { timestamp = timestamp; offset = offset })

  unfoldable pub load_time_indexes : List Value → Option (List TimeIndex)
  unfolding load_time_index
  load_time_indexes [] = some []
  load_time_indexes (item ∷ items) = do
    ti ← load_time_index item
    later ← load_time_indexes items
    some (ti ∷ later)

  unfoldable pub load_array : Option Value → Option (List TimeIndex)
  unfolding load_time_indexes
  load_array none = some []
  load_array (some items) =
      if json.is_array items then load_time_indexes (json.elements items) else some []

  unfoldable pub load_index : Option Value → Option (Option FileIndex)
  unfolding load_array
  load_index none = some none
  load_index (some idx) = do
    index_etag ← json.value_string (codes "index_etag") [] idx
    last_index_time ← json.value_time (codes "last_index_time") 0 idx
    time_indexes ← load_array (json.member (codes "time_indexes") idx)
    some (
        some (record {
          index_etag = index_etag;
          last_index_time = last_index_time;
          time_indexes = time_indexes;
        }))

  unfoldable pub compiled_all : (Bytes → Bool) → RootPath → Bool
  compiled_all compiles rp =
      compiles rp.path_pattern
      && compiles rp.filename_pattern
      && compiles rp.time_format_pattern
      && compiles rp.prefix_pattern

  -- An entry of a root that is known, and of a file that was scanned.
  unfoldable pub load_known :
      (Bytes → Bool) → Value → Bytes → Option RootPath → Option FileInfo → Option FileInfo
  unfolding load_index compiled_all
  load_known compiles item fullpath none _ = none
  load_known compiles item fullpath (some rp) none = none
  load_known compiles item fullpath (some rp) (some scanned) = do
    name ← json.value_string (codes "name") [] item
    dir ← json.value_string (codes "dir") [] item
    size ← json.value_uint64 (codes "size") 0 item
    mtime ← json.value_time (codes "mtime") 0 item
    file_type ← json.value_string (codes "ftype") [] item
    etag ← json.value_string (codes "etag") [] item
    inode ← json.value_uint64 (codes "inode") 0 item
    file_index ←
        (if compiled_all compiles rp
          then load_index (json.member (codes "file_index") item)
          else none)
    some (record {
      name = name;
      dir = dir;
      fullpath = fullpath;
      size = size;
      mtime = mtime;
      file_type = file_type;
      etag = etag;
      inode = inode;
      file_index = file_index;
      root_path = rp;
    })

  -- What an entry of the cache stands for; `none` is an entry that is skipped, or that throws.
  unfoldable pub load_entry :
      (Bytes → Bool) → List (Bytes × RootPath) → Files → Value → Option FileInfo
  unfolding load_known
  load_entry compiles root_paths index item = do
    fullpath ← json.value_string (codes "fullpath") [] item
    rp ← json.value_string (codes "root_path") [] item
    load_known compiles item fullpath (lookup rp root_paths) (lookup fullpath index)

  unfoldable pub add_loaded : Option FileInfo → Files → Files
  unfolding emplace
  add_loaded none tmp_index = tmp_index
  add_loaded (some fi) tmp_index =
      if is_empty fi.fullpath then tmp_index else emplace fi.fullpath fi tmp_index

  unfoldable pub load_entries :
      (Bytes → Bool) → List (Bytes × RootPath) → Files → Files → List Value → Files
  unfolding add_loaded load_entry
  load_entries compiles root_paths index tmp_index [] = tmp_index
  load_entries compiles root_paths index tmp_index (item ∷ items) =
      load_entries compiles root_paths index
        (add_loaded (load_entry compiles root_paths index item) tmp_index) items

  unfoldable pub load_parsed : (Bytes → Bool) → List RootPath → Files → Option Value → Files
  unfolding load_entries map_roots
  load_parsed compiles roots index none = index
  load_parsed compiles roots index (some j) =
      load_entries compiles (map_roots [] roots) index [] (json.elements j)

  -- The table, where the cache file has this text, or is not there.
  unfoldable pub load_index_from_cache :
      (Bytes → Bool) → List RootPath → Files → Option Bytes → Files
  unfolding load_parsed
  load_index_from_cache compiles roots index none = index
  load_index_from_cache compiles roots index (some text) =
      load_parsed compiles roots index (json.parse text)
