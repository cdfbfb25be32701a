-- ===== src/Index/Scan/Reports.antt =====
-- A full scan gives a report: no document, and no failure of one, keeps it from recording its run.
use omni_sem.Base.{subst, sym, Option, none, ℕ, ◌≡◌, refl, inl, inr, List, [], ◌∷◌, Bool-cases}
use omni_sem.Domain.{DomainError, Result, Timestamp, ok, Result-cases}
use omni_sem.Domain.Records.{Root, DiscoveredDocument, SourceFile, ScanRun}
use omni_sem.Parsing.Registry.{ParserRegistry}
use omni_sem.Storage.{Outcome, Database, mark_source_deleted}
use omni_sem.Storage.Scans.{upsert_root, list_active_source_files, insert_scan_run}
use omni_sem.Storage.Runs.{
  SameRuns, SameRuns-trans, HasRoot, PathIsFree, RunIsNew, upsert_root-stored,
  insert_scan_run-stored, upsert_source_file-SameRuns, insert_revision-SameRuns,
  promote_revision-SameRuns,
}
use omni_sem.Discovery.{DiscoveryReport, Outside, default_options}
use omni_sem.Discovery.Walk.{discover_root}
use omni_sem.Index.{IndexError, process_document}
use omni_sem.Index.Preserved.{Preserved, process_document-Preserved}
use omni_sem.Index.Scan.{
  with_time, finish_scan, mark_and_finish, RootIndexReport, Counters, no_counts, count_outcome,
  ScanContext, GitBase, Scanned, is_seen, mark_unseen, process_documents, then_scan, scan_run,
  scan_failed, scan_documents, index_one_root_full,
}

SameRuns-Preserved : (first : Database) → Preserved (SameRuns first)
SameRuns-Preserved first = record {
  upserts = λ source db db' e kept.
      SameRuns-trans first db db' kept (upsert_source_file-SameRuns source db db' e);
  inserts =
      λ r db db' e kept. SameRuns-trans first db db' kept (insert_revision-SameRuns r db db' e);
  promotes = λ source revision segments db db' e kept.
      SameRuns-trans first db db' kept
        (promote_revision-SameRuns source revision segments db db' e);
}

-- When no deletion fails, the sources are marked, and the roots and runs stay.
mark_unseen-SameRuns :
    (mark_error : SourceFile → Option IndexError) (deleted_at : Timestamp)
    (documents : List DiscoveredDocument) (sources : List SourceFile) (n : ℕ) (first db : Database)
    → ((source : SourceFile) → mark_error source ≡ none)
    → SameRuns first db
    → (marked : Database) × (deletions : ℕ) × (mark_unseen mark_error deleted_at documents sources n
          db
        ≡ (marked, ok deletions))
      × SameRuns first marked
unfolding mark_unseen mark_source_deleted
mark_unseen-SameRuns mark_error deleted_at documents [] n first db marks same = (db, n, refl, same)
mark_unseen-SameRuns mark_error deleted_at documents (source ∷ sources) n first db marks same =
    elim (Bool-cases (is_seen documents source.relative_path)) [
      | inl seen ↦
          rw seen
            (mark_unseen-SameRuns mark_error deleted_at documents sources n first db marks same)
      | inr unseen ↦
          rw (unseen, marks source)
            (mark_unseen-SameRuns mark_error deleted_at documents sources _ first
              (mark_source_deleted source deleted_at db) marks
              (record { roots = same.roots; runs = same.runs }))
    ]

abbrev Reports : Scanned → Type 0
Reports scanned = (report : RootIndexReport) × (scanned.1 ≡ ok report)

timed-Reports :
    (time : Result DomainError Timestamp) (now : Timestamp) (db : Database)
    (next : Timestamp → Scanned)
    → time ≡ ok now
    → Reports (next now)
    → Reports (with_time time db next)
unfolding with_time
timed-Reports time now db next answers reports = rw answers reports

module _ (scan : ScanContext) (root : Root) (registry : ParserRegistry) where
  process_documents-SameRuns :
      (documents : List DiscoveredDocument) (counters : Counters) (first db : Database)
      → SameRuns first db
      → SameRuns first (process_documents scan root registry documents counters db).0
  unfolding process_documents
  process_documents-SameRuns [] counters first db same = same
  process_documents-SameRuns (document ∷ documents) counters first db same =
      let context = scan.context_of document in
      let processed = process_document context root document registry (scan.read document) db in
      process_documents-SameRuns documents (count_outcome processed.1 counters) first processed.0 (
        process_document-Preserved (SameRuns first) (SameRuns-Preserved first) context root document
          db same registry (scan.read document))

  -- The run is recorded.
  run-recorded :
      (run : ScanRun) (first db : Database) (report : RootIndexReport)
      → HasRoot run.root_id first
      → RunIsNew run.id first
      → SameRuns first db
      → Reports (then_scan scan root registry db (insert_scan_run run db) (λ db'. (db', ok report)))
  unfolding then_scan
  run-recorded run first db report known new same =
      rw (insert_scan_run-stored run first db known new same) (report, refl)

  mark_and_finish-listed :
      (base : GitBase) (started_at : Timestamp) (discovery : DiscoveryReport) (db : Database)
      (counters : Counters)
      → scan.list_error ≡ none
      → mark_and_finish scan root registry base started_at discovery (db, counters)
        ≡ with_time scan.deleted_at db (λ deleted_at.
          finish_scan scan root registry base started_at discovery counters (
            mark_unseen scan.mark_error deleted_at discovery.documents
              (list_active_source_files root.id db)
              0
              db))
  unfolding mark_and_finish
  mark_and_finish-listed base started_at discovery db counters lists = rw lists refl

  then-Reports :
      (db db' : Database) (o : Outcome) (next : Database → Scanned)
      → o ≡ ok db'
      → Reports (next db')
      → Reports (then_scan scan root registry db o next)
  unfolding then_scan
  then-Reports db db' o next done reports = rw done reports

  -- When the clock answers, the active sources can be listed and marked, no other root has the path of
  -- the root and the identifier of the run is new, a full scan gives a report, whatever becomes of the
  -- discovery and of each document.
  pub index_one_root_full-reports :
      (outside : Outside) (base : GitBase) (db : Database)
      (started_at deleted_at completed_at : Timestamp)
      → scan.started_at ≡ ok started_at
      → scan.deleted_at ≡ ok deleted_at
      → scan.completed_at ≡ ok completed_at
      → scan.list_error ≡ none
      → ((source : SourceFile) → scan.mark_error source ≡ none)
      → PathIsFree root db
      → RunIsNew scan.run_id db
      → (report : RootIndexReport) × ((index_one_root_full scan root registry outside base db).1
          ≡ ok report)
  unfolding index_one_root_full scan_failed scan_documents mark_and_finish finish_scan scan_run
  index_one_root_full-reports outside base db started_at deleted_at completed_at starts deletes
        completes lists marks free new =
      let (db', stored, known, runs) = upsert_root-stored root db free in
      let new' : RunIsNew scan.run_id db' = rw (runs, new) refl in
      let self : SameRuns db' db' = record { roots = refl; runs = refl } in
      timed-Reports scan.started_at started_at db _ starts (
        then-Reports db db' (upsert_root root db) _ stored
          (elim (Result-cases (discover_root outside root default_options)) [
            | inl (error, failed) ↦ rw failed (
                timed-Reports scan.completed_at completed_at db' _ completes
                  (run-recorded _ db' db' _ known new' self))
            | inr (discovery, found) ↦
                let indexed =
                  process_documents scan root registry discovery.documents no_counts db' in
                let (marked, deletions, done, kept) =
                  mark_unseen-SameRuns scan.mark_error deleted_at discovery.documents
                    (list_active_source_files root.id indexed.0) 0 db' indexed.0 marks
                    (process_documents-SameRuns discovery.documents no_counts db' db' self) in
                let listed =
                  mark_and_finish-listed base started_at discovery indexed.0 indexed.1 lists in
                rw found (
                  subst Reports (sym listed) (
                    timed-Reports scan.deleted_at deleted_at indexed.0 _ deletes (
                      subst
                        (λ m.
                          Reports
                            (finish_scan scan root registry base started_at discovery indexed.1 m))
                        (sym done)
                        (timed-Reports scan.completed_at completed_at marked _ completes
                          (run-recorded _ db' marked _ known new' kept)))))
          ]))
