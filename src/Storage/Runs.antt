-- ===== src/Storage/Runs.antt =====
-- The statements of indexing leave the roots and the scan runs as they are.
use omni_sem.Base.{
  ℕ, ◌≡◌, refl, sym, ap, subst, ◌∙◌, ◌&&◌, not, inl, inr, true, false, none, List, [], ◌∷◌, ◌++◌,
  map, ◌==◌, ==_iff, any, Bool-cases, In-append_right, here, map-In, text_eq,
}
use omni_sem.Domain.{ok}
use omni_sem.Domain.Records.{Root, ScanRun, SourceFile, Revision, Segment}
use omni_sem.Storage.{
  Database, Ran, same_path, upserted, upsert_source_file, update_promoted, promote_revision,
  insert_revision, insert_segment, insert_fts, insert_segments, fts_row, unless,
}
use omni_sem.Storage.Promotion.{run-done, unless-ok, In-any, any-In}
use omni_sem.Storage.Search.{promote_revision-Steps}
use omni_sem.Storage.Scans.{replace_root, upsert_root, insert_scan_run}
use omni_sem.Retrieval.Sensitivity.{match_text}

pub record SameRuns (db db' : Database) : Type 0 where
  pub roots : db'.roots ≡ db.roots
  pub runs : db'.scan_runs ≡ db.scan_runs

pub SameRuns-trans : (a b c : Database) → SameRuns a b → SameRuns b c → SameRuns a c
SameRuns-trans a b c first later = record {
  roots = later.roots ∙ first.roots;
  runs = later.runs ∙ first.runs;
}

-- A database that is equal to one with the same roots and runs.
of_equal : (db mid db' : Database) → SameRuns db mid → mid ≡ db' → SameRuns db db'
of_equal db mid db' same e = record {
  roots = ap (λ (d : Database). d.roots) (sym e) ∙ same.roots;
  runs = ap (λ (d : Database). d.scan_runs) (sym e) ∙ same.runs;
}

pub upsert_source_file-SameRuns :
    (source : SourceFile) (db db' : Database)
    → upsert_source_file source db ≡ ok db'
    → SameRuns db db'
unfolding upsert_source_file
upsert_source_file-SameRuns source db db' h =
    elim (Bool-cases (any (λ row. same_path row source) db.source_files)) [
      | inl known ↦
          let sources = map (upserted source) db.source_files in
          let e : ok (record db { source_files = sources }) ≡ ok db' = rw known at h in
          of_equal db (record db { source_files = sources }) db'
            (record { roots = refl; runs = refl }) cc
      | inr new ↦
          let (unbroken, e) = unless-ok _ _ db' (rw new at h) in
          of_equal db _ db' (record { roots = refl; runs = refl }) e
    ]

pub insert_revision-SameRuns :
    (r : Revision) (db db' : Database) → insert_revision r db ≡ ok db' → SameRuns db db'
unfolding insert_revision
insert_revision-SameRuns r db db' h =
    let (unbroken, e) = unless-ok _ _ db' h in
    of_equal db _ db' (record { roots = refl; runs = refl }) e

insert_segments-SameRuns :
    (source : SourceFile) (revision : Revision) (segments : List Segment) (db db' : Database)
    → insert_segments source revision segments db ≡ (db', none)
    → SameRuns db db'
unfolding insert_segments insert_segment insert_fts
insert_segments-SameRuns source revision [] db db' h =
    let e : db ≡ db' = ap (λ (r : Ran). r.0) h in
    of_equal db db db' (record { roots = refl; runs = refl }) e
insert_segments-SameRuns source revision (g ∷ segments) db db' h =
    let (mid, first, later) = run-done db _ _ db' h in
    let (unbroken, e) = unless-ok _ _ mid first in
    let mid_same = of_equal db _ mid (record { roots = refl; runs = refl }) e in
    let rest =
      insert_segments-SameRuns source revision segments (insert_fts (fts_row source revision g) mid)
        db' later in
    SameRuns-trans db mid db' mid_same (record { roots = rest.roots; runs = rest.runs })

pub promote_revision-SameRuns :
    (source : SourceFile) (revision : Revision) (segments : List Segment) (db db' : Database)
    → promote_revision source revision segments db ≡ (db', none)
    → SameRuns db db'
unfolding update_promoted
promote_revision-SameRuns source revision segments db db' h =
    let steps = promote_revision-Steps source revision segments db db' h in
    let i = insert_revision-SameRuns revision _ steps.mid steps.first in
    let s = insert_segments-SameRuns source revision segments steps.mid steps.full steps.inserted in
    of_equal db (update_promoted source revision steps.full) db'
      (record { roots = s.roots ∙ i.roots; runs = s.runs ∙ i.runs }) steps.last

-- The identifier is that of a root.
abbrev pub HasRoot : ℕ → Database → Type 0
HasRoot id db = any (λ (r : Root). r.id == id) db.roots ≡ true

-- What is asked of the database: no other root has the path, and the identifier of the run is new.
abbrev pub PathIsFree : Root → Database → Type 0
PathIsFree root db =
    any
      (λ (r : Root).
        not (r.id == root.id)
        && text_eq (match_text r.canonical_path) (match_text root.canonical_path))
      db.roots
    ≡ false

abbrev pub RunIsNew : ℕ → Database → Type 0
RunIsNew id db = any (λ (r : ScanRun). r.id == id) db.scan_runs ≡ false

pub upsert_root-stored :
    (root : Root) (db : Database)
    → PathIsFree root db
    → (db' : Database) × (upsert_root root db ≡ ok db')
      × HasRoot root.id db'
      × (db'.scan_runs ≡ db.scan_runs)
unfolding upsert_root replace_root unless
upsert_root-stored root db free = elim (Bool-cases (any (λ (r : Root). r.id == root.id) db.roots)) [
  | inl known ↦
      let (row, m, own) = any-In (λ (r : Root). r.id == root.id) db.roots known in
      (
        record db { roots = map (replace_root root) db.roots },
        rw (free, known) refl,
        In-any (λ (r : Root). r.id == root.id) (map-In (replace_root root) m)
            (rw own ((==_iff root.id root.id).1 refl)),
        refl,
      )
  | inr new ↦ (
    record db { roots = db.roots ++ root ∷ [] },
    rw (free, new) refl,
    In-any (λ (r : Root). r.id == root.id) (In-append_right db.roots (root ∷ []) here)
        ((==_iff root.id root.id).1 refl),
    refl,
  )
]

-- With the roots and runs of a database that has the root and not the run, the run is added.
pub insert_scan_run-stored :
    (run : ScanRun) (first db : Database)
    → HasRoot run.root_id first
    → RunIsNew run.id first
    → SameRuns first db
    → insert_scan_run run db ≡ ok (record db { scan_runs = db.scan_runs ++ run ∷ [] })
unfolding insert_scan_run unless
insert_scan_run-stored run first db known new same =
    let known' : HasRoot run.root_id db =
      subst (λ roots. any (λ (r : Root). r.id == run.root_id) roots ≡ true) (sym same.roots)
        known in
    let new' : RunIsNew run.id db =
      subst (λ runs. any (λ (r : ScanRun). r.id == run.id) runs ≡ false) (sym same.runs) new in
    rw (new', known') refl
