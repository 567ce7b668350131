-- ===== src/Indexer/Cache/RoundTrip.antt =====
-- What is saved is loaded (`save_index_to_cache`, `load_index_from_cache` of
-- src/agent/indexer.cpp).
use drlog_search.Base.{
  ℕ, Bool, true, false, Option, none, some, List, [], ◌∷◌, Bytes, codes, ◌==◌, is_empty,
  is_empty-ne, map, eqb, ◌≡◌, refl, sym, ap, ◌∙◌, ◌≢◌, inl, inr, Bool-cases, All, Permᴰ, All-Permᴰ,
}
use drlog_search.Json.{Json, JsonLaws}
use drlog_search.Table.{lookup, insert, assign, Sorted, lookup-insert-other}
use drlog_search.Table.Order.{
  Apart, Distinct, Distinct-Permᴰ, Sorted-Distinct, assign-Sorted_eq, eqb_sym,
}
use drlog_search.Indexer.Info.{TimeIndex, FileIndex, RootPath, FileInfo}
use drlog_search.Indexer.Files.{Files}
use drlog_search.Indexer.Cache.{
  emplaced, emplace, map_roots, time_index_item, index_item, index_entry, file_entry, file_entries,
  save_index_to_cache, load_time_index, load_time_indexes, load_array, load_index, compiled_all,
  load_known, load_entry, add_loaded, load_entries, load_parsed, load_index_from_cache,
}

module _ (json : Json) (laws : JsonLaws json) where
  open json use {Value}

  load_time_index-item : (ti : TimeIndex) → load_time_index json (time_index_item json ti) ≡ some ti
  unfolding load_time_index time_index_item lookup eqb
  load_time_index-item ti =
      let entries : List (Bytes × Value) =
        (codes "timestamp", json.number ti.timestamp)
        ∷ (codes "offset", json.number ti.offset)
        ∷ [] in
      rw
        (
          laws.value_uint64-number (codes "timestamp") 0 entries ti.timestamp refl,
          laws.value_uint64-number (codes "offset") 0 entries ti.offset refl,
        )
        refl

  load_time_indexes-items :
      (ts : List TimeIndex) → load_time_indexes json (map (time_index_item json) ts) ≡ some ts
  unfolding load_time_indexes
  load_time_indexes-items [] = refl
  load_time_indexes-items (t ∷ ts) = rw (load_time_index-item t, load_time_indexes-items ts) refl

  load_index-item :
      (index : FileIndex) → load_index json (some (index_item json index)) ≡ some (some index)
  unfolding load_index load_array index_item lookup eqb
  load_index-item index =
      let items = json.array (map (time_index_item json) index.time_indexes) in
      let entries : List (Bytes × Value) =
        (codes "index_etag", json.string index.index_etag)
        ∷ (codes "last_index_time", json.signed index.last_index_time)
        ∷ (codes "time_indexes", items)
        ∷ [] in
      let member : json.member (codes "time_indexes") (json.object entries) ≡ some items =
        laws.member-object (codes "time_indexes") entries in
      rw
        (
          laws.value_string-some (codes "index_etag") [] entries index.index_etag refl,
          laws.value_time-signed (codes "last_index_time") 0 entries index.last_index_time refl,
          member,
          laws.is_array-array (map (time_index_item json) index.time_indexes),
          laws.elements-array (map (time_index_item json) index.time_indexes),
          load_time_indexes-items index.time_indexes,
        )
        refl

  load_index-none : load_index json none ≡ some none
  unfolding load_index
  load_index-none = refl

  load_index-entry :
      (index : Option FileIndex)
      → load_index json (lookup (codes "file_index") (index_entry json index)) ≡ some index
  unfolding lookup eqb index_entry
  load_index-entry none = load_index-none
  load_index-entry (some index) = load_index-item index

  -- An entry that is loaded again: its root is known and its patterns compile, and its file was
  -- scanned.
  pub record Kept (compiles : Bytes → Bool) (root_paths : List (Bytes × RootPath)) (index : Files)
      (entry : Bytes × FileInfo) : Type 0 where
    pub by_path : entry.0 ≡ entry.1.fullpath
    pub has_path : entry.1.fullpath ≢ []
    pub root_known : lookup entry.1.root_path.path root_paths ≡ some entry.1.root_path
    pub compiled : compiled_all json compiles entry.1.root_path ≡ true
    pub scanned : FileInfo
    pub is_scanned : lookup entry.1.fullpath index ≡ some scanned

  load_entry-file_entry :
      (compiles : Bytes → Bool) (root_paths : List (Bytes × RootPath)) (index : Files)
      (path : Bytes) (fi : FileInfo)
      → Kept compiles root_paths index (path, fi)
      → load_entry json compiles root_paths index (file_entry json fi) ≡ some fi
  unfolding load_entry load_known file_entry lookup eqb
  load_entry-file_entry compiles root_paths index path fi k =
      let entries : List (Bytes × Value) =
        (codes "fullpath", json.string fi.fullpath)
        ∷ (codes "name", json.string fi.name)
        ∷ (codes "dir", json.string fi.dir)
        ∷ (codes "size", json.number fi.size)
        ∷ (codes "mtime", json.signed fi.mtime)
        ∷ (codes "ftype", json.string fi.file_type)
        ∷ (codes "etag", json.string fi.etag)
        ∷ (codes "inode", json.number fi.inode)
        ∷ (codes "root_path", json.string fi.root_path.path)
        ∷ index_entry json fi.file_index in
      let member : json.member (codes "file_index") (json.object entries)
          ≡ lookup (codes "file_index") (index_entry json fi.file_index) =
        laws.member-object (codes "file_index") entries in
      rw
        (
          laws.value_string-some (codes "fullpath") [] entries fi.fullpath refl,
          laws.value_string-some (codes "root_path") [] entries fi.root_path.path refl,
          k.root_known,
          k.is_scanned,
          laws.value_string-some (codes "name") [] entries fi.name refl,
          laws.value_string-some (codes "dir") [] entries fi.dir refl,
          laws.value_uint64-number (codes "size") 0 entries fi.size refl,
          laws.value_time-signed (codes "mtime") 0 entries fi.mtime refl,
          laws.value_string-some (codes "ftype") [] entries fi.file_type refl,
          laws.value_string-some (codes "etag") [] entries fi.etag refl,
          laws.value_uint64-number (codes "inode") 0 entries fi.inode refl,
          k.compiled,
          member,
          load_index-entry fi.file_index,
        )
        refl

  -- None of the keys is in a table.
  abbrev New : Files → Files → Type 0
  New tmp_index [] = Unit
  New tmp_index ((path, fi) ∷ files) = (lookup path tmp_index ≡ none) × New tmp_index files

  New-insert :
      (path : Bytes) (fi : FileInfo) (tmp_index files : Files)
      → Apart path files
      → New tmp_index files
      → New (insert path fi tmp_index) files
  New-insert path fi tmp_index [] a n = tt
  New-insert path fi tmp_index ((p, f) ∷ files) a n = (
    lookup-insert-other path p fi tmp_index (eqb_sym path p a.0) ∙ n.0,
    New-insert path fi tmp_index files a.1 n.1,
  )

  New-nil : (files : Files) → New [] files
  unfolding lookup
  New-nil [] = tt
  New-nil ((path, fi) ∷ files) = (refl, New-nil files)

  add_loaded-entry :
      (compiles : Bytes → Bool) (root_paths : List (Bytes × RootPath)) (index tmp_index : Files)
      (path : Bytes) (fi : FileInfo)
      → Kept compiles root_paths index (path, fi)
      → lookup path tmp_index ≡ none
      → add_loaded json (load_entry json compiles root_paths index (file_entry json fi)) tmp_index
        ≡ insert path fi tmp_index
  unfolding add_loaded emplace emplaced
  add_loaded-entry compiles root_paths index tmp_index path fi k n =
      let filled : is_empty fi.fullpath ≡ false = is_empty-ne fi.fullpath k.has_path in
      let fresh : lookup fi.fullpath tmp_index ≡ none =
        ap (λ p. lookup p tmp_index) (sym k.by_path) ∙ n in
      rw (load_entry-file_entry compiles root_paths index path fi k, filled, fresh, k.by_path) refl

  load_entries-assign :
      (compiles : Bytes → Bool) (root_paths : List (Bytes × RootPath))
      (index tmp_index files : Files)
      → All (Kept compiles root_paths index) files
      → Distinct files
      → New tmp_index files
      → load_entries json compiles root_paths index tmp_index (file_entries json files)
        ≡ assign tmp_index files
  unfolding load_entries file_entries assign
  load_entries-assign compiles root_paths index tmp_index [] k d n = refl
  load_entries-assign compiles root_paths index tmp_index ((path, fi) ∷ files) k d n =
      ap (λ t. load_entries json compiles root_paths index t (file_entries json files))
        (add_loaded-entry compiles root_paths index tmp_index path fi k.0 n.0)
      ∙ load_entries-assign compiles root_paths index (insert path fi tmp_index) files k.1 d.1
          (New-insert path fi tmp_index files d.0 n.1)

  time_index_items-plain : (ts : List TimeIndex) → All laws.IsPlain (map (time_index_item json) ts)
  unfolding time_index_item
  time_index_items-plain [] = tt
  time_index_items-plain (t ∷ ts) = (
    laws.object_plain _ (laws.number_plain _, (laws.number_plain _, tt)),
    time_index_items-plain ts,
  )

  index_entry-plain :
      (index : Option FileIndex) → All (λ entry. laws.IsPlain entry.1) (index_entry json index)
  unfolding index_entry index_item
  index_entry-plain none = tt
  index_entry-plain (some index) = (
    laws.object_plain _ (
      laws.string_plain _,
      (laws.signed_plain _, (laws.array_plain _ (time_index_items-plain index.time_indexes), tt)),
    ),
    tt,
  )

  file_entries-plain : (files : Files) → All laws.IsPlain (file_entries json files)
  unfolding file_entries file_entry
  file_entries-plain [] = tt
  file_entries-plain ((path, fi) ∷ files) = (
    laws.object_plain _ (
      laws.string_plain _,
      (
        laws.string_plain _,
        (
          laws.string_plain _,
          (
            laws.number_plain _,
            (
              laws.signed_plain _,
              (
                laws.string_plain _,
                (
                  laws.string_plain _,
                  (laws.number_plain _, (laws.string_plain _, index_entry-plain fi.file_index)),
                ),
              ),
            ),
          ),
        ),
      ),
    ),
    file_entries-plain files,
  )

  -- With nlohmann::json as it promises, in whatever order the table is run through: where each file
  -- of the table is under its path, its root is one that is known, with patterns that compile, and
  -- it was scanned, a cache that is saved, because an index was updated, is loaded as the table
  -- that was saved.
  pub load_index_from_cache-save :
      (compiles : Bytes → Bool) (roots : List RootPath) (order : Files → Files)
      (updated_index_count : ℕ) (files index : Files) (text : Bytes)
      → ((table : Files) → Permᴰ table (order table))
      → Sorted files
      → All (Kept compiles (map_roots [] roots) index) files
      → save_index_to_cache json order updated_index_count files ≡ some text
      → load_index_from_cache json compiles roots index (some text) ≡ files
  unfolding save_index_to_cache load_index_from_cache load_parsed
  load_index_from_cache-save compiles roots order count files index text p s k h =
      elim (Bool-cases (count == 0)) [
        | inl y ↦ absurd (let z : ◌≡◌ {A = Option Bytes} none (some text) = rw y at h in cc)
        | inr n ↦
            let saved = file_entries json (order files) in
            let d : json.dump_indented (json.array saved) ≡ some text = rw n at h in
            let parsed =
              laws.parse-dump_indented (json.array saved) text
                (laws.array_plain saved (file_entries-plain (order files))) d in
            rw (parsed, laws.elements-array saved)
              (load_entries-assign compiles (map_roots [] roots) index [] (order files)
                  (All-Permᴰ (Kept compiles (map_roots [] roots) index) (p files) k)
                  (Distinct-Permᴰ (p files) (Sorted-Distinct files s)) (New-nil (order files))
                ∙ assign-Sorted_eq files (order files) s (p files))
      ]
