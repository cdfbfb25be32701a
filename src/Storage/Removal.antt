-- ===== src/Storage/Removal.antt =====
-- storage.rs: `delete_root_derived`, the removal of a root with all that was derived from it.
use omni_sem.Base.{
  ℕ, ◌+◌, ◌≡◌, refl, ap, Bool, false, not, none, some, List, [], ◌∷◌, any, filter, length, ◌==◌,
  arith, Bool-cases, inl, inr,
}
use omni_sem.Domain.Records.{Root, SourceFile, Revision, Segment, ScanRun}
use omni_sem.Domain.{Result, ok, err}
use omni_sem.Storage.{StorageError, Database, FtsRow, Outcome, Ran, unless, run, transaction}

pub record RootRemovalCounts : Type 0 where
  pub source_files : ℕ
  pub revisions : ℕ
  pub segments : ℕ

-- `source_file_id IN (SELECT id FROM source_files WHERE root_id = ?1)`
pub source_of_root : ℕ → Database → ℕ → Bool
source_of_root root_id db source_id =
    any (λ s. s.id == source_id) (filter (λ s. s.root_id == root_id) db.source_files)

-- `revision_id IN (SELECT id FROM revisions WHERE source_file_id IN ...)`
pub revision_of_root : ℕ → Database → ℕ → Bool
revision_of_root root_id db revision_id =
    any (λ r. r.id == revision_id)
      (filter (λ r. source_of_root root_id db r.source_file_id) db.revisions)

delete_fts_of_root : ℕ → Database → Database
delete_fts_of_root root_id db = record db {
  segments_fts = filter (λ f. not (f.root_id == root_id)) db.segments_fts;
}

delete_segments_of_root : ℕ → Database → Database
delete_segments_of_root root_id db = record db {
  segments = filter (λ g. not (revision_of_root root_id db g.revision_id)) db.segments;
}

-- A segment that is left refers to its revision.
delete_revisions_of_root : ℕ → Database → Outcome
delete_revisions_of_root root_id db =
    unless (any (λ (g : Segment). revision_of_root root_id db g.revision_id) db.segments)
      (record db {
        revisions = filter (λ r. not (source_of_root root_id db r.source_file_id)) db.revisions;
      })

delete_runs_of_root : ℕ → Database → Database
delete_runs_of_root root_id db = record db {
  scan_runs = filter (λ r. not (r.root_id == root_id)) db.scan_runs;
}

-- A revision that is left refers to its source.
delete_sources_of_root : ℕ → Database → Outcome
delete_sources_of_root root_id db =
    unless (any (λ (r : Revision). source_of_root root_id db r.source_file_id) db.revisions)
      (record db { source_files = filter (λ s. not (s.root_id == root_id)) db.source_files })

-- A source that is left refers to its root; scan runs go with it.
delete_root : ℕ → Database → Outcome
delete_root root_id db =
    unless (any (λ (s : SourceFile). s.root_id == root_id) db.source_files) (record db {
      roots = filter (λ r. not (r.id == root_id)) db.roots;
      scan_runs = filter (λ r. not (r.root_id == root_id)) db.scan_runs;
    })

-- The statements of the transaction, in their order.
delete_statements : ℕ → Database → Ran
delete_statements root_id db =
    let cleared = delete_segments_of_root root_id (delete_fts_of_root root_id db) in
    run cleared (delete_revisions_of_root root_id cleared) (λ db'.
      let without_runs = delete_runs_of_root root_id db' in
      run without_runs (delete_sources_of_root root_id without_runs)
        (λ db''. run db'' (delete_root root_id db'') (λ last. (last, none))))

removal_counts : ℕ → Database → RootRemovalCounts
removal_counts root_id db = record {
  source_files = length (filter (λ s. s.root_id == root_id) db.source_files);
  revisions = length (filter (λ r. source_of_root root_id db r.source_file_id) db.revisions);
  segments = length (filter (λ g. revision_of_root root_id db g.revision_id) db.segments);
}

with_counts : RootRemovalCounts → Ran → Database × Result StorageError RootRemovalCounts
with_counts counts (db, none) = (db, ok counts)
with_counts counts (db, some e) = (db, err e)

pub delete_root_derived : ℕ → Database → Database × Result StorageError RootRemovalCounts
delete_root_derived root_id db =
    with_counts (removal_counts root_id db) (transaction db (delete_statements root_id db))

length-filter-not {ℓ} :
    {A : Type ℓ} (p : A → Bool) (xs : List A)
    → length (filter p xs) + length (filter (λ x. not (p x)) xs) ≡ length xs
length-filter-not p [] = refl
length-filter-not p (x ∷ xs) = ground (arith, length-filter-not p xs)

any-filter-not {ℓ} :
    {A : Type ℓ} (p : A → Bool) (xs : List A) → any p (filter (λ x. not (p x)) xs) ≡ false
any-filter-not p [] = refl
any-filter-not p (x ∷ xs) = elim (Bool-cases (p x)) [
  | inl gone ↦ rw gone (any-filter-not p xs)
  | inr kept ↦ rw (kept, kept) (any-filter-not p xs)
]

filter-twice {ℓ} : {A : Type ℓ} (p : A → Bool) (xs : List A) → filter p (filter p xs) ≡ filter p xs
filter-twice p [] = refl
filter-twice p (x ∷ xs) = elim (Bool-cases (p x)) [
  | inl kept ↦ rw (kept, kept) (ap (◌∷◌ x) (filter-twice p xs))
  | inr gone ↦ rw gone (filter-twice p xs)
]

-- What is left of the tables, and how many rows of three of them are gone. Rows of other roots stay.
pub record IsRemoved (root_id : ℕ) (db db' : Database) (counts : RootRemovalCounts) : Type 0 where
  pub roots : db'.roots ≡ filter (λ (r : Root). not (r.id == root_id)) db.roots
  pub sources :
      db'.source_files ≡ filter (λ (s : SourceFile). not (s.root_id == root_id)) db.source_files
  pub revisions :
      db'.revisions
      ≡ filter (λ (r : Revision). not (source_of_root root_id db r.source_file_id)) db.revisions
  pub segments :
      db'.segments
      ≡ filter (λ (g : Segment). not (revision_of_root root_id db g.revision_id)) db.segments
  pub fts : db'.segments_fts ≡ filter (λ (f : FtsRow). not (f.root_id == root_id)) db.segments_fts
  pub runs : db'.scan_runs ≡ filter (λ (r : ScanRun). not (r.root_id == root_id)) db.scan_runs
  pub sources_gone : counts.source_files + length db'.source_files ≡ length db.source_files
  pub revisions_gone : counts.revisions + length db'.revisions ≡ length db.revisions
  pub segments_gone : counts.segments + length db'.segments ≡ length db.segments

removed_root : ℕ → Database → Database
removed_root root_id db = record {
  roots = filter (λ r. not (r.id == root_id)) db.roots;
  source_files = filter (λ s. not (s.root_id == root_id)) db.source_files;
  revisions = filter (λ r. not (source_of_root root_id db r.source_file_id)) db.revisions;
  segments = filter (λ g. not (revision_of_root root_id db g.revision_id)) db.segments;
  segments_fts = filter (λ f. not (f.root_id == root_id)) db.segments_fts;
  scan_runs =
      filter (λ r. not (r.root_id == root_id))
        (filter (λ r. not (r.root_id == root_id)) db.scan_runs);
}

delete_root_derived-done :
    (root_id : ℕ) (db : Database)
    → delete_root_derived root_id db ≡ (removed_root root_id db, ok (removal_counts root_id db))
unfolding delete_root_derived delete_statements with_counts transaction run unless
    delete_fts_of_root delete_segments_of_root delete_revisions_of_root delete_runs_of_root
    delete_sources_of_root delete_root removed_root revision_of_root source_of_root
delete_root_derived-done root_id db =
    rw
      (
        any-filter-not (λ (g : Segment). revision_of_root root_id db g.revision_id) db.segments,
        any-filter-not (λ (r : Revision). source_of_root root_id db r.source_file_id) db.revisions,
        any-filter-not (λ (s : SourceFile). s.root_id == root_id) db.source_files,
      )
      refl

-- The removal of a root never fails: no statement of it breaks a reference. It leaves the rows that are
-- not the root's, of revisions those whose source was not the root's and of segments those whose
-- revision was of no such source, and the counts are the numbers of rows that are gone.
pub delete_root_derived_lem :
    (root_id : ℕ) (db : Database)
    → (db' : Database) × (counts : RootRemovalCounts) × (delete_root_derived root_id db
        ≡ (db', ok counts))
      × IsRemoved root_id db db' counts
unfolding removed_root removal_counts
delete_root_derived_lem root_id db = (
  removed_root root_id db,
  removal_counts root_id db,
  delete_root_derived-done root_id db,
  record {
    roots = refl;
    sources = refl;
    revisions = refl;
    segments = refl;
    fts = refl;
    runs = filter-twice (λ (r : ScanRun). not (r.root_id == root_id)) db.scan_runs;
    sources_gone = length-filter-not (λ (s : SourceFile). s.root_id == root_id) db.source_files;
    revisions_gone =
        length-filter-not (λ (r : Revision). source_of_root root_id db r.source_file_id)
          db.revisions;
    segments_gone =
        length-filter-not (λ (g : Segment). revision_of_root root_id db g.revision_id) db.segments;
  },
)
