-- ===== src/Storage.antt =====
-- crates/omnisem-core/src/storage.rs: the statements that indexing runs, over the tables as lists of
-- rows with the keys of migrations/0001_initial.sql and 0002_operational_indexing.sql. A statement
-- that breaks a key or a reference fails and leaves the tables as they were.
pub mod Promotion
pub mod Search
pub mod Untouched
pub mod Removal
pub mod Upsert
pub mod Keyed
pub mod Runs
pub mod Scans
pub mod Samples
mod Examples
use omni_sem.Base.{
  ℕ, ◌≡◌, Bool, true, false, not, ◌&&◌, ◌||◌, Option, none, some, List, [], ◌∷◌, ◌++◌, map, Text,
  text_eq, ◌==◌, if◌then◌else◌, any, filter, length, min,
}
use omni_sem.Domain.{Timestamp, FilePath, active, deleted, Result, ok, err, ◌>>=◌}
use omni_sem.Domain.Records.{Root, SourceFile, Revision, Segment, ScanRun}
use omni_sem.Retrieval.Sensitivity.{match_text}

pub data StorageError : Type 0 where
  constraint : StorageError

pub record FtsRow : Type 0 where
  pub text : Text
  pub segment_id : ℕ
  pub revision_id : ℕ
  pub source_file_id : ℕ
  pub root_id : ℕ
  pub relative_path : Text
  pub anchor : Text

pub record Database : Type 0 where
  pub roots : List Root
  pub source_files : List SourceFile
  pub revisions : List Revision
  pub segments : List Segment
  pub segments_fts : List FtsRow
  pub scan_runs : List ScanRun

abbrev pub Outcome : Type 0
Outcome = Result StorageError Database

abbrev pub i64_max : ℕ
i64_max = 9_223_372_036_854_775_807

-- `INSERT` under the keys of a table.
unfoldable pub unless : Bool → Database → Outcome
unless broken db = if broken then err constraint else ok db

-- The relative path is stored as text.
unfoldable pub same_path : SourceFile → SourceFile → Bool
same_path a b =
    (a.root_id == b.root_id) && text_eq (match_text a.relative_path) (match_text b.relative_path)

unfoldable pub find_source_file : List SourceFile → ℕ → FilePath → Option SourceFile
find_source_file [] root_id path = none
find_source_file (s ∷ sources) root_id path =
    let rest = find_source_file sources root_id path in
    if (s.root_id == root_id) && text_eq (match_text s.relative_path) (match_text path)
    then some s
    else rest

unfoldable pub get_revision : List Revision → ℕ → Option Revision
get_revision [] id = none
get_revision (r ∷ revisions) id =
    let rest = get_revision revisions id in if r.id == id then some r else rest

-- `DELETE FROM segments_fts WHERE revision_id = ?1`, where there is a revision.
pub delete_fts : Option ℕ → List FtsRow → List FtsRow
delete_fts none rows = rows
delete_fts (some previous) rows = filter (λ f. not (f.revision_id == previous)) rows

-- `UNIQUE(source_file_id, content_hash, parser_id, parser_version)`
pub same_content : Revision → Revision → Bool
same_content r s =
    (r.source_file_id == s.source_file_id)
    && text_eq r.content_hash s.content_hash
    && text_eq r.parser_id s.parser_id
    && text_eq r.parser_version s.parser_version

pub insert_revision : Revision → Database → Outcome
insert_revision r db =
    unless
      (any (λ s. s.id == r.id) db.revisions
        || any (same_content r) db.revisions
        || not (any (λ s. s.id == r.source_file_id) db.source_files))
      (record db { revisions = db.revisions ++ r ∷ [] })

pub insert_segment : Segment → Database → Outcome
insert_segment g db =
    unless
      (any (λ h. h.id == g.id) db.segments
        || any (λ h. (h.revision_id == g.revision_id) && (h.ordinal == g.ordinal)) db.segments
        || any (λ h. (h.revision_id == g.revision_id) && text_eq h.anchor g.anchor) db.segments
        || not (any (λ r. r.id == g.revision_id) db.revisions))
      (record db { segments = db.segments ++ g ∷ [] })

pub fts_row : SourceFile → Revision → Segment → FtsRow
fts_row source revision segment = record {
  text = segment.text;
  segment_id = segment.id;
  revision_id = revision.id;
  source_file_id = source.id;
  root_id = source.root_id;
  relative_path = match_text source.relative_path;
  anchor = segment.anchor;
}

pub insert_fts : FtsRow → Database → Database
insert_fts f db = record db { segments_fts = db.segments_fts ++ f ∷ [] }

-- The database that statements have reached, with the error of the one that failed.
abbrev pub Ran : Type 0
Ran = Database × Option StorageError

-- A statement, and those that follow it unless it fails.
pub run : Database → Outcome → (Database → Ran) → Ran
run db (ok db') next = next db'
run db (err e) next = (db, some e)

-- Statements, and those that follow them unless one fails.
pub then_run : Ran → (Database → Ran) → Ran
then_run (db, none) next = next db
then_run (db, some e) next = (db, some e)

-- A transaction in which a statement fails is dropped, and the database is what it was.
pub transaction : Database → Ran → Ran
transaction db (db', none) = (db', none)
transaction db (db', some e) = (db, some e)

pub insert_segments : SourceFile → Revision → List Segment → Database → Ran
insert_segments source revision [] db = (db, none)
insert_segments source revision (g ∷ segments) db =
    run db (insert_segment g db)
      (λ db'. insert_segments source revision segments (insert_fts (fts_row source revision g) db'))

-- The row after the last statement of a promotion.
pub promoted : SourceFile → ℕ → SourceFile → SourceFile
promoted source revision_id row =
    if row.id == source.id
    then record row {
      canonical_path_hash = source.canonical_path_hash;
      file_type = source.file_type;
      size_bytes = min source.size_bytes i64_max;
      modified_at = source.modified_at;
      current_revision_id = some revision_id;
      state = active;
      last_seen_at = source.last_seen_at;
    }
    else row

pub update_promoted : SourceFile → Revision → Database → Database
update_promoted source revision db = record db {
  source_files = map (promoted source revision.id) db.source_files;
}

-- The statements of a promotion, in their order.
pub promote_statements : SourceFile → Revision → List Segment → Database → Ran
promote_statements source revision segments db =
    let cleared : Database = record db {
      segments_fts = delete_fts source.current_revision_id db.segments_fts;
    } in
    run cleared (insert_revision revision cleared) (λ db'.
      then_run (insert_segments source revision segments db')
        (λ db''. (update_promoted source revision db'', none)))

pub promote_revision : SourceFile → Revision → List Segment → Database → Ran
promote_revision source revision segments db =
    transaction db (promote_statements source revision segments db)

-- `ON CONFLICT(root_id, relative_path) DO UPDATE`: the identifier and the first sighting stay.
pub upserted : SourceFile → SourceFile → SourceFile
upserted source row =
    if same_path row source
    then record source {
      id = row.id;
      root_id = row.root_id;
      relative_path = row.relative_path;
      size_bytes = min source.size_bytes i64_max;
      first_seen_at = row.first_seen_at;
    }
    else row

pub upsert_source_file : SourceFile → Database → Outcome
upsert_source_file source db =
    if any (λ row. same_path row source) db.source_files
    then ok (record db { source_files = map (upserted source) db.source_files })
    else unless
        (any (λ row. row.id == source.id) db.source_files
          || not (any (λ r. r.id == source.root_id) db.roots))
        (record db {
          source_files =
              db.source_files ++ record source { size_bytes = min source.size_bytes i64_max } ∷ [];
        })

unfoldable pub removed : ℕ → Timestamp → SourceFile → SourceFile
removed id deleted_at row =
    if row.id == id
    then record row { state = deleted; current_revision_id = none; last_seen_at = deleted_at }
    else row

unfoldable pub mark_source_deleted : SourceFile → Timestamp → Database → Database
mark_source_deleted source deleted_at db = record db {
  segments_fts = delete_fts source.current_revision_id db.segments_fts;
  source_files = map (removed source.id deleted_at) db.source_files;
}
