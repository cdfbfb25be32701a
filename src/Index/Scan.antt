-- ===== src/Index/Scan.antt =====
-- crates/omnisem-core/src/index.rs: `index_one_root_full`, the full scan of a root. The clock, the
-- fresh identifiers and what `read_stable_file` of io.rs returns are parameters.
pub mod Unseen
pub mod Reports
mod Examples
pub mod Kept
use omni_sem.Base.{
  ℕ, ◌+◌, ◌%◌, Bool, true, false, Option, none, some, List, [], ◌∷◌, ◌++◌, Text, codes, any, length,
  if◌then◌else◌, to_u32,
}
use omni_sem.Domain.{DomainError, Timestamp, FilePath, Result, ok, err, ScanStatus}
use omni_sem.Domain.Records.{Root, DiscoveredDocument, SourceFile, ScanRun}
use omni_sem.Domain.Paths.{path_eq}
use omni_sem.Parsing.Registry.{ParserRegistry}
use omni_sem.Storage.{Database, Outcome, mark_source_deleted}
use omni_sem.Storage.Scans.{upsert_root, list_active_source_files, insert_scan_run}
use omni_sem.Discovery.{
  DiscoveryError, root_missing, root_not_directory, root_canonicalize, invalid_pattern, io,
  DiscoveryReport, Outside, default_options,
}
use omni_sem.Discovery.Walk.{discover_root}
use omni_sem.Index.{
  IndexError, storage, domain, Context, StableFileBytes, DocumentOutcome, addition, modification,
  unchanged, process_document,
}

pub data IndexMode : Type 0 where
  full : IndexMode
  incremental : IndexMode

pub record RootIndexReport : Type 0 where
  pub root_id : Text
  pub root_name : Text
  pub mode : IndexMode
  pub requested_base : Option Text
  pub resolved_base : Option Text
  pub current_head : Option Text
  pub changed_paths : ℕ
  pub explicit_deletions : ℕ
  pub fallback_reason : Option Text
  pub files_discovered : ℕ
  pub additions : ℕ
  pub modifications : ℕ
  pub unchanged_count : ℕ
  pub deletions : ℕ
  pub skipped : ℕ
  pub failures : ℕ
  pub segments_indexed : ℕ
  pub failed : Bool
  pub error_code : Option Text

-- The counters of the loop over the documents.
pub record Counters : Type 0 where
  pub additions : ℕ
  pub modifications : ℕ
  pub unchanged_count : ℕ
  pub failures : ℕ
  pub segments_indexed : ℕ

abbrev pub no_counts : Counters
no_counts = record {
  additions = 0;
  modifications = 0;
  unchanged_count = 0;
  failures = 0;
  segments_indexed = 0;
}

-- `+=` on a `u32`, as a release build computes it.
unfoldable pub add_u32 : ℕ → ℕ → ℕ
add_u32 a b = (a + b) % 4_294_967_296

unfoldable pub count_outcome : Result IndexError DocumentOutcome → Counters → Counters
unfolding add_u32
count_outcome (ok (addition segments)) c = record c {
  additions = add_u32 c.additions 1;
  segments_indexed = add_u32 c.segments_indexed segments;
}
count_outcome (ok (modification segments)) c = record c {
  modifications = add_u32 c.modifications 1;
  segments_indexed = add_u32 c.segments_indexed segments;
}
count_outcome (ok unchanged) c = record c { unchanged_count = add_u32 c.unchanged_count 1 }
count_outcome (err e) c = record c { failures = add_u32 c.failures 1 }

-- The clock at the three places where it is read, the identifier of the run, and for each document
-- what `process_document` takes from outside.
pub record ScanContext : Type 0 where
  pub started_at : Result DomainError Timestamp
  pub deleted_at : Result DomainError Timestamp
  pub completed_at : Result DomainError Timestamp
  -- The error of the database where `list_active_source_files`, or the transaction of
  -- `mark_source_deleted`, fails.
  pub list_error : Option IndexError
  pub mark_error : SourceFile → Option IndexError
  pub run_id : ℕ
  pub show_id : ℕ → Text
  pub show_path : FilePath → Text
  pub context_of : DiscoveredDocument → Context
  pub read : DiscoveredDocument → Result Text StableFileBytes

-- What a caller says of the Git state.
pub record GitBase : Type 0 where
  pub requested_base : Option Text
  pub resolved_base : Option Text
  pub current_head : Option Text
  pub fallback_reason : Option Text

-- The part of a report that a run keeps too.
pub record Totals : Type 0 where
  pub counters : Counters
  pub files_discovered : ℕ
  pub deletions : ℕ
  pub skipped : ℕ

abbrev pub Scanned : Type 0
Scanned = Database × Result IndexError RootIndexReport

-- `seen_paths.contains`
unfoldable pub is_seen : List DiscoveredDocument → FilePath → Bool
is_seen documents path = any (λ (d : DiscoveredDocument). path_eq d.relative_path path) documents

-- The active sources that were not seen are marked, and counted; `?` returns the first error.
unfoldable pub mark_unseen :
    (SourceFile → Option IndexError)
    → Timestamp
    → List DiscoveredDocument
    → List SourceFile
    → ℕ
    → Database
    → Database × Result IndexError ℕ
unfolding add_u32
mark_unseen mark_error deleted_at documents [] deletions db = (db, ok deletions)
mark_unseen mark_error deleted_at documents (source ∷ sources) deletions db =
    if is_seen documents source.relative_path
    then mark_unseen mark_error deleted_at documents sources deletions db
    else elim (mark_error source) [
      | some e ↦ (db, err e)
      | none ↦
          mark_unseen mark_error deleted_at documents sources (add_u32 deletions 1)
            (mark_source_deleted source deleted_at db)
    ]

-- `Timestamp::now()?` and what follows it.
unfoldable pub with_time : Result DomainError Timestamp → Database → (Timestamp → Scanned) → Scanned
with_time (ok now) db next = next now
with_time (err e) db next = (db, err (domain e))

module _ (scan : ScanContext) where
  -- `DiscoveryError`'s `to_string`.
  pub discovery_error_text : DiscoveryError → Text
  discovery_error_text (root_missing path) =
      codes "approved root does not exist: " ++ scan.show_path path
  discovery_error_text (root_not_directory path) =
      codes "approved root is not a directory: " ++ scan.show_path path
  discovery_error_text (root_canonicalize path message) =
      codes "failed to canonicalize approved root " ++ scan.show_path path ++ codes ": " ++ message
  discovery_error_text (invalid_pattern pattern message) =
      codes "invalid discovery pattern '" ++ pattern ++ codes "': " ++ message
  discovery_error_text (io path message) =
      codes "discovery I/O failed for " ++ scan.show_path path ++ codes ": " ++ message

  module _ (root : Root) (registry : ParserRegistry) where
    -- The loop over the documents.
    unfoldable pub process_documents :
        List DiscoveredDocument → Counters → Database → Database × Counters
    unfolding count_outcome
    process_documents [] counters db = (db, counters)
    process_documents (document ∷ documents) counters db =
        let (db', processed) =
          process_document (scan.context_of document) root document registry (scan.read document)
            db in
        process_documents documents (count_outcome processed counters) db'

    unfoldable pub scan_run : Timestamp → Timestamp → ScanStatus → Totals → Option Text → ScanRun
    scan_run started_at completed_at status totals error_code = record {
      id = scan.run_id;
      root_id = root.id;
      started_at = started_at;
      completed_at = some completed_at;
      status = status;
      additions = totals.counters.additions;
      modifications = totals.counters.modifications;
      unchanged = totals.counters.unchanged_count;
      deletions = totals.deletions;
      skipped = totals.skipped;
      failures = totals.counters.failures;
      segments_indexed = totals.counters.segments_indexed;
      error_code = error_code;
    }

    unfoldable pub root_report : GitBase → Totals → Bool → Option Text → RootIndexReport
    root_report base totals failed error_code = record {
      root_id = scan.show_id root.id;
      root_name = root.display_name;
      mode = full;
      requested_base = base.requested_base;
      resolved_base = base.resolved_base;
      current_head = base.current_head;
      changed_paths = 0;
      explicit_deletions = 0;
      fallback_reason = base.fallback_reason;
      files_discovered = totals.files_discovered;
      additions = totals.counters.additions;
      modifications = totals.counters.modifications;
      unchanged_count = totals.counters.unchanged_count;
      deletions = totals.deletions;
      skipped = totals.skipped;
      failures = totals.counters.failures;
      segments_indexed = totals.counters.segments_indexed;
      failed = failed;
      error_code = error_code;
    }

    -- A statement and what follows it: `?` returns its error.
    unfoldable pub then_scan : Database → Outcome → (Database → Scanned) → Scanned
    then_scan db (ok db') next = next db'
    then_scan db (err e) next = (db, err (storage e))

    -- What follows a discovery that fails.
    unfoldable pub scan_failed : GitBase → Timestamp → DiscoveryError → Database → Scanned
    unfolding with_time then_scan scan_run root_report
    scan_failed base started_at error db =
        let totals : Totals = record {
          counters = no_counts;
          files_discovered = 0;
          deletions = 0;
          skipped = 0;
        } in
        with_time scan.completed_at db (λ completed_at.
          then_scan db
            (insert_scan_run
              (scan_run started_at completed_at ScanStatus.failed totals
                (some (codes "DISCOVERY_FAILED")))
              db)
            (λ db'. (
              db',
              ok (
                  root_report base totals true
                    (some (codes "discovery failed: " ++ discovery_error_text error))),
            )))

    -- What follows the marking of the sources.
    unfoldable pub finish_scan :
        GitBase → Timestamp → DiscoveryReport → Counters → Database × Result IndexError ℕ → Scanned
    unfolding with_time then_scan scan_run root_report
    finish_scan base started_at discovery counters (db, err e) = (db, err e)
    finish_scan base started_at discovery counters (db, ok deletions) =
        let totals : Totals = record {
          counters = counters;
          files_discovered = to_u32 (length discovery.documents);
          deletions = deletions;
          skipped = to_u32 (length discovery.skipped);
        } in
        with_time scan.completed_at db (λ completed_at.
          then_scan db
            (insert_scan_run (scan_run started_at completed_at ScanStatus.completed totals none) db)
            (λ db'. (db', ok (root_report base totals false none))))

    -- What follows the loop over the documents.
    unfoldable pub mark_and_finish :
        GitBase → Timestamp → DiscoveryReport → Database × Counters → Scanned
    unfolding with_time mark_unseen finish_scan
    mark_and_finish base started_at discovery (db, counters) = elim scan.list_error [
      | some e ↦ (db, err e)
      | none ↦ with_time scan.deleted_at db (λ deleted_at.
          finish_scan base started_at discovery counters (
            mark_unseen scan.mark_error deleted_at discovery.documents
              (list_active_source_files root.id db) 0 db))
    ]

    -- What follows a discovery that succeeds.
    unfoldable pub scan_documents : GitBase → Timestamp → DiscoveryReport → Database → Scanned
    unfolding process_documents mark_and_finish
    scan_documents base started_at discovery db =
        mark_and_finish base started_at discovery
          (process_documents discovery.documents no_counts db)

    unfoldable pub index_one_root_full : Outside → GitBase → Database → Scanned
    unfolding with_time scan_failed scan_documents then_scan
    index_one_root_full outside base db = with_time scan.started_at db (λ started_at.
        then_scan db (upsert_root root db) (λ db'.
          elim (discover_root outside root default_options) [
            | err error ↦ scan_failed base started_at error db'
            | ok discovery ↦ scan_documents base started_at discovery db'
          ]))
