-- ===== src/Indexer/Scan/Current.antt =====
-- After a round of the scan the table is up to date (`scan_loop` of src/agent/indexer.cpp).
use drlog_search.Base.{
  ℕ, Bool, not, ◌&&◌, ◌||◌, Option, none, some, List, [], ◌∷◌, Bytes, eqb, eqb_iff, ◌≡◌, refl, sym,
  ap, ◌∙◌, ◌≢◌, inl, inr, arith, Bool-cases, All, ◌⊎◌,
}
use drlog_search.Table.{lookup}
use drlog_search.Indexer.Info.{RootPath, FileInfo}
use drlog_search.Indexer.Files.{Files, scan_file}
use drlog_search.Indexer.Files.Current.{scan_file_lem}
use drlog_search.Indexer.Scan.{
  Entry, seen, passes, info_of, scan_seen, scan_entries, scan_root, scan_roots,
}

-- What the file system says of a file.
pub record Stat : Type 0 where
  pub inode : ℕ
  pub size : ℕ
  pub mtime : ℕ

abbrev pub Says : Option ℕ → ℕ → Type 0
Says none n = Unit
Says (some m) n = m ≡ n

-- The calls on an entry answer what the file system says, or fail.
pub record IsSnapshot (stat : Bytes → Stat) (entry : Entry) : Type 0 where
  pub inode_right : Says entry.inode (stat entry.path).inode
  pub size_right : Says entry.size (stat entry.path).size
  pub mtime_right : Says entry.mtime (stat entry.path).mtime

-- A file is in the table as the file system says.
pub record Shown (stat : Stat) (o : Option FileInfo) : Type 0 where
  pub entry : FileInfo
  pub present : o ≡ some entry
  pub inode_shown : entry.inode ≡ stat.inode
  pub size_shown : entry.size ≡ stat.size
  pub mtime_shown : entry.mtime ≡ stat.mtime

-- What is seen of an entry is what the file system says of its path.
abbrev SeenRight : (Bytes → Stat) → Bytes → Option FileInfo → Type 0
SeenRight stat path none = Unit
SeenRight stat path (some info) =
    (info.fullpath ≡ path)
    × (info.inode ≡ (stat path).inode)
    × (info.size ≡ (stat path).size)
    × (info.mtime ≡ (stat path).mtime)

seen-right :
    (stat : Bytes → Stat) (rp : RootPath) (entry : Entry) (i s m : Option ℕ)
    → Says i (stat entry.path).inode
    → Says s (stat entry.path).size
    → Says m (stat entry.path).mtime
    → SeenRight stat entry.path (seen rp entry i s m)
unfolding seen
seen-right stat rp entry (some i) (some s) (some m) a b c = (refl, a, b, c)
seen-right stat rp entry none s m a b c = tt
seen-right stat rp entry (some i) none m a b c = tt
seen-right stat rp entry (some i) (some s) none a b c = tt

module _ (regex_match : Bytes → Bytes → Option Bool) (stat : Bytes → Stat) where
  info_of-right :
      (rp : RootPath) (entry : Entry)
      → IsSnapshot stat entry
      → SeenRight stat entry.path (info_of regex_match rp entry)
  unfolding info_of
  info_of-right rp entry h = elim (Bool-cases (entry.is_symlink || not entry.is_regular)) [
    | inl y ↦ rw y tt
    | inr n ↦
        rw n
          (elim (Bool-cases (
            passes regex_match rp.path_pattern entry.path
            && passes regex_match rp.filename_pattern entry.filename)) [
              | inl p ↦ rw p (
                  seen-right stat rp entry entry.inode entry.size entry.mtime h.inode_right
                    h.size_right h.mtime_right)
              | inr p ↦ rw p tt
            ])
  ]

  scan_seen-Shown :
      (path : Bytes) (o : Option FileInfo) (files : Files)
      → SeenRight stat path o
      → (info : FileInfo) → o ≡ some info
      → Shown (stat path) (lookup path (scan_seen o files))
  unfolding scan_seen
  scan_seen-Shown path none files h info e = cc
  scan_seen-Shown path (some i) files (p, a, b, c) info e =
      let r = (scan_file_lem i files).0 in
      record {
        entry = r.entry;
        present = ap (λ k. lookup k (scan_file i files)) (sym p) ∙ r.present;
        inode_shown = r.same_inode ∙ a;
        size_shown = r.same_size ∙ b;
        mtime_shown = r.same_mtime ∙ c;
      }

  -- What is shown right stays so, whatever entry is scanned.
  scan_seen-stays :
      (path other : Bytes) (o : Option FileInfo) (files : Files)
      → SeenRight stat other o
      → Shown (stat path) (lookup path files)
      → Shown (stat path) (lookup path (scan_seen o files))
  unfolding scan_seen
  scan_seen-stays path other none files h s = s
  scan_seen-stays path other (some i) files h s = elim (Bool-cases (eqb path i.fullpath)) [
    | inl y ↦
        let e : path ≡ other = (eqb_iff path i.fullpath).0 y ∙ h.0 in
        rw e (scan_seen-Shown other (some i) files h i refl)
    | inr n ↦
        let apart : path ≢ i.fullpath =
          λ x. absurd (ground (arith, n, (eqb_iff path i.fullpath).1 x)) in
        let same = (scan_file_lem i files).1 path apart in
        record {
          entry = s.entry;
          present = same ∙ s.present;
          inode_shown = s.inode_shown;
          size_shown = s.size_shown;
          mtime_shown = s.mtime_shown;
        }
  ]

  scan_entries-stays :
      (path : Bytes) (rp : RootPath) (entries : List Entry) (files : Files)
      → All (IsSnapshot stat) entries
      → Shown (stat path) (lookup path files)
      → Shown (stat path) (lookup path (scan_entries regex_match rp entries files))
  unfolding scan_entries
  scan_entries-stays path rp [] files h s = s
  scan_entries-stays path rp (e ∷ entries) files h s =
      scan_entries-stays path rp entries (scan_seen (info_of regex_match rp e) files) h.1
        (scan_seen-stays path e.path (info_of regex_match rp e) files (info_of-right rp e h.0) s)

  -- An entry that the scan of a root does not skip.
  abbrev pub Found : RootPath → List Entry → Bytes → Type 0
  Found rp [] path = ⊥
  Found rp (e ∷ entries) path =
      ((e.path ≡ path) × ((info : FileInfo) × (info_of regex_match rp e ≡ some info)))
      ⊎ Found rp entries path

  scan_entries-Shown :
      (path : Bytes) (rp : RootPath) (entries : List Entry) (files : Files)
      → All (IsSnapshot stat) entries
      → Found rp entries path
      → Shown (stat path) (lookup path (scan_entries regex_match rp entries files))
  unfolding scan_entries
  scan_entries-Shown path rp [] files h f = absurd f
  scan_entries-Shown path rp (e ∷ entries) files h (inl (p, (info, i))) = rw (← p) (
      scan_entries-stays e.path rp entries (scan_seen (info_of regex_match rp e) files) h.1
        (scan_seen-Shown e.path (info_of regex_match rp e) files (info_of-right rp e h.0) info i))
  scan_entries-Shown path rp (e ∷ entries) files h (inr f) =
      scan_entries-Shown path rp entries (scan_seen (info_of regex_match rp e) files) h.1 f

  abbrev pub SnapshotOf : Option (List Entry) → Type 0
  SnapshotOf none = Unit
  SnapshotOf (some entries) = All (IsSnapshot stat) entries

  abbrev pub FoundOf : RootPath → Option (List Entry) → Bytes → Type 0
  FoundOf rp none path = ⊥
  FoundOf rp (some entries) path = Found rp entries path

  -- The entries of each root are a snapshot.
  abbrev pub Snapshots : (Bytes → Option (List Entry)) → List RootPath → Type 0
  Snapshots directory [] = Unit
  Snapshots directory (rp ∷ roots) = SnapshotOf (directory rp.path) × Snapshots directory roots

  -- A root has an entry of the path that its scan does not skip.
  abbrev pub FoundIn : (Bytes → Option (List Entry)) → List RootPath → Bytes → Type 0
  FoundIn directory [] path = ⊥
  FoundIn directory (rp ∷ roots) path =
      FoundOf rp (directory rp.path) path ⊎ FoundIn directory roots path

  scan_root-stays :
      (path : Bytes) (rp : RootPath) (o : Option (List Entry)) (files : Files)
      → SnapshotOf o
      → Shown (stat path) (lookup path files)
      → Shown (stat path) (lookup path (scan_root regex_match rp o files))
  unfolding scan_root
  scan_root-stays path rp none files h s = s
  scan_root-stays path rp (some entries) files h s = scan_entries-stays path rp entries files h s

  scan_root-Shown :
      (path : Bytes) (rp : RootPath) (o : Option (List Entry)) (files : Files)
      → SnapshotOf o
      → FoundOf rp o path
      → Shown (stat path) (lookup path (scan_root regex_match rp o files))
  unfolding scan_root
  scan_root-Shown path rp none files h f = absurd f
  scan_root-Shown path rp (some entries) files h f = scan_entries-Shown path rp entries files h f

  module _ (directory : Bytes → Option (List Entry)) where
    scan_roots-stays :
        (path : Bytes) (roots : List RootPath) (files : Files)
        → Snapshots directory roots
        → Shown (stat path) (lookup path files)
        → Shown (stat path) (lookup path (scan_roots regex_match directory roots files))
    unfolding scan_roots
    scan_roots-stays path [] files h s = s
    scan_roots-stays path (rp ∷ roots) files h s =
        scan_roots-stays path roots (scan_root regex_match rp (directory rp.path) files) h.1
          (scan_root-stays path rp (directory rp.path) files h.0 s)

    pub scan_roots-Shown :
        (path : Bytes) (roots : List RootPath) (files : Files)
        → Snapshots directory roots
        → FoundIn directory roots path
        → Shown (stat path) (lookup path (scan_roots regex_match directory roots files))
    unfolding scan_roots
    scan_roots-Shown path [] files h f = absurd f
    scan_roots-Shown path (rp ∷ roots) files h (inl f) =
        scan_roots-stays path roots (scan_root regex_match rp (directory rp.path) files) h.1
          (scan_root-Shown path rp (directory rp.path) files h.0 f)
    scan_roots-Shown path (rp ∷ roots) files h (inr f) =
        scan_roots-Shown path roots (scan_root regex_match rp (directory rp.path) files) h.1 f
