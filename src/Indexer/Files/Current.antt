-- ===== src/Indexer/Files/Current.antt =====
-- The table of files keeps up with the files.
use drlog_search.Base.{
  ℕ, false, not, ◌||◌, Option, none, some, List, [], ◌∷◌, Bytes, ◌==◌, if◌then◌else◌, ◌≡◌, refl,
  inl, inr, ◌≢◌, arith, ==_iff, Bool-cases, eqb, eqb_iff, eqb_refl,
}
use drlog_search.Table.{lookup, lookup-insert, lookup-insert-other}
use drlog_search.Base.{Bool, true, sym, ap, ◌∙◌, Option-cases}
use drlog_search.Table.{Sorted, erase, erase-Sorted, lookup-erase-other}
use drlog_search.Indexer.Files.{remove_step, remove_loop, is_unindexed, reindexed}
use drlog_search.Indexer.Info.{TimeIndex, FileIndex, FileInfo}
use drlog_search.Indexer.Files.{Files, scanned, scan_file, is_stale, update_file}

-- Where its handler gives outputs, the index of a file is not out of date behind an update.
pub update_file-fresh :
    (now : ℕ) (handler : Bytes → FileInfo → Option (List TimeIndex)) (path : Bytes)
    (info : FileInfo) (outputs : List TimeIndex)
    → handler path info ≡ some outputs
    → is_stale (update_file now handler path info) (update_file now handler path info).file_index
      ≡ false
unfolding update_file is_stale reindexed
update_file-fresh now handler path info outputs o =
    elim (Bool-cases (is_stale info info.file_index)) [
      | inl y ↦ rw (y, o, eqb_refl info.etag)
      | inr n ↦ rw n n
    ]

-- What is known of the file is what the scan saw; its index is kept if it is the same file.
abbrev pub index_kept : FileInfo → Option FileInfo → Option FileIndex
index_kept info none = info.file_index
index_kept info (some known) =
    if known.inode == info.inode then known.file_index else info.file_index

pub record Recorded (info : FileInfo) (before : Option FileInfo) (after : Option FileInfo)
    : Type 0 where
  pub entry : FileInfo
  pub present : after ≡ some entry
  pub same_inode : entry.inode ≡ info.inode
  pub same_size : entry.size ≡ info.size
  pub same_mtime : entry.mtime ≡ info.mtime
  pub same_index : entry.file_index ≡ index_kept info before

scanned-Recorded :
    (info : FileInfo) (files : Files) (o : Option FileInfo)
    → lookup info.fullpath files ≡ o
    → Recorded info o (lookup info.fullpath (scanned info files o))
unfolding scanned
scanned-Recorded info files none e = record {
  entry = info;
  present = lookup-insert info.fullpath info files;
  same_inode = refl;
  same_size = refl;
  same_mtime = refl;
  same_index = refl;
}
scanned-Recorded info files (some known) e = elim (Bool-cases (known.inode == info.inode)) [
  | inr n ↦ rw n (record {
    entry = info;
    present = lookup-insert info.fullpath info files;
    same_inode = refl;
    same_size = refl;
    same_mtime = refl;
    same_index = rw n;
  })
  | inl y ↦
      rw y (elim (Bool-cases (not (known.size == info.size) || not (known.mtime == info.mtime))) [
        | inl c ↦ rw c (record {
          entry = record info { file_index = known.file_index };
          present =
              lookup-insert info.fullpath (record info { file_index = known.file_index }) files;
          same_inode = refl;
          same_size = refl;
          same_mtime = refl;
          same_index = rw y;
        })
        | inr s ↦ rw s (record {
          entry = known;
          present = e;
          same_inode = (==_iff _ _).0 y;
          same_size = ground (arith, s);
          same_mtime = ground (arith, s);
          same_index = rw y;
        })
      ])
]

scanned-other :
    (info : FileInfo) (files : Files) (o : Option FileInfo) (path : Bytes)
    → eqb path info.fullpath ≡ false
    → lookup path (scanned info files o) ≡ lookup path files
unfolding scanned
scanned-other info files none path n = lookup-insert-other info.fullpath path info files n
scanned-other info files (some known) path n = ground (
  arith,
  lookup-insert-other info.fullpath path info files n,
  lookup-insert-other info.fullpath path (record info { file_index = known.file_index }) files n,
)

-- After a file is scanned, the table has the inode, the size and the time of change that were seen,
-- with the index that it had before if the inode is the same and that of the scan otherwise; no
-- other path is affected.
pub scan_file_lem :
    (info : FileInfo) (files : Files)
    → Recorded info (lookup info.fullpath files) (lookup info.fullpath (scan_file info files))
      × ((path : Bytes)
          → path ≢ info.fullpath
          → lookup path (scan_file info files) ≡ lookup path files)
unfolding scan_file
scan_file_lem info files = (
  scanned-Recorded info files (lookup info.fullpath files) refl,
  λ path ne.
      scanned-other info files (lookup info.fullpath files) path
        (elim (Bool-cases (eqb path info.fullpath)) [
          | inl y ↦ absurd (ne ((eqb_iff _ _).0 y))
          | inr n ↦ n
        ]),
)

-- The removal keeps what is known of a path that exists.
module _ (exists : Bytes → Option Bool) where
  kept_apart :
      (key path : Bytes) → exists key ≡ some false → exists path ≡ some true → eqb path key ≡ false
  kept_apart key path gone there = elim (Bool-cases (eqb path key)) [
    | inl y ↦
        let is = (eqb_iff path key).0 y in
        let z : ◌≡◌ {A = Option Bool} (some true) (some false) = sym there ∙ ap exists is ∙ gone in
        absurd cc
    | inr n ↦ n
  ]

  pub remove_loop-keeps :
      (entries index : Files) (path : Bytes)
      → exists path ≡ some true
      → lookup path (remove_loop exists entries index).1 ≡ lookup path index
  unfolding remove_loop remove_step
  remove_loop-keeps [] index path e = refl
  remove_loop-keeps ((key, info) ∷ entries) index path e =
      elim (Bool-cases (is_unindexed info.file_index)) [
        | inl y ↦ rw y (remove_loop-keeps entries index path e)
        | inr n ↦ rw n (elim (Option-cases (exists key)) [
          | inl none_there ↦ rw none_there refl
          | inr (true, y) ↦ rw y (remove_loop-keeps entries index path e)
          | inr (false, y) ↦ rw y (
              remove_loop-keeps entries (erase key index) path e
              ∙ lookup-erase-other key path index (kept_apart key path y e))
        ])
      ]

  pub remove_loop-Sorted :
      (entries index : Files) → Sorted index → Sorted (remove_loop exists entries index).1
  unfolding remove_loop remove_step
  remove_loop-Sorted [] index s = s
  remove_loop-Sorted ((key, info) ∷ entries) index s =
      elim (Bool-cases (is_unindexed info.file_index)) [
        | inl y ↦ rw y (remove_loop-Sorted entries index s)
        | inr n ↦ rw n (elim (Option-cases (exists key)) [
          | inl none_there ↦ rw none_there s
          | inr (true, y) ↦ rw y (remove_loop-Sorted entries index s)
          | inr (false, y) ↦
              rw y (remove_loop-Sorted entries (erase key index) (erase-Sorted key index s))
        ])
      ]
