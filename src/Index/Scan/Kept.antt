-- ===== src/Index/Scan/Kept.antt =====
-- What a full scan keeps: one row for an identifier and for a place, and search rows that belong to the
-- current revisions of active sources.
use omni_sem.Base.{
  Option, Option-cases, ℕ, ◌≡◌, ◌≢◌, refl, sym, ap, subst, ◌⊎◌, inl, inr, none, List, [], ◌∷◌, ◌==◌,
  ==_iff, arith, Bool-cases, In, In-filter, All, All-imp, All-map, All-of_In, All-sort_by,
}
use omni_sem.Domain.{DomainError, Result, Timestamp, ok, err, Result-cases}
use omni_sem.Domain.Records.{Root, DiscoveredDocument, SourceFile, ScanRun}
use omni_sem.Parsing.Registry.{ParserRegistry}
use omni_sem.Storage.{Database, Outcome, removed, mark_source_deleted}
use omni_sem.Storage.Promotion.{IsCurrent, Searchable, unless-ok}
use omni_sem.Storage.Search.{AgreesOrGone, delete-Searchable}
use omni_sem.Storage.Upsert.{Keyed}
use omni_sem.Storage.Keyed.{
  Keyed-same, mark_source_deleted-Keyed, upsert_source_file-Keyed, insert_revision-Keyed,
  promote_revision-Keyed,
}
use omni_sem.Storage.Scans.{upsert_root, list_active_source_files, insert_scan_run}
use omni_sem.Discovery.{Outside, DiscoveryReport, default_options}
use omni_sem.Discovery.Walk.{discover_root}
use omni_sem.Index.{IndexError, process_document}
use omni_sem.Index.Preserved.{Preserved, process_document-Preserved}
use omni_sem.Index.Searchable.{process_document-Searchable}
use omni_sem.Index.Scan.{
  with_time, finish_scan, mark_and_finish, Counters, no_counts, count_outcome, ScanContext, GitBase,
  Scanned, is_seen, mark_unseen, process_documents, then_scan, scan_failed, scan_documents,
  index_one_root_full,
}

-- One row for an identifier and for a place, and current search rows.
pub record Sound (db : Database) : Type 0 where
  pub keyed : Keyed db
  pub searchable : Searchable db

pub Keyed-Preserved : Preserved Keyed
Keyed-Preserved = record {
  upserts = upsert_source_file-Keyed;
  inserts = insert_revision-Keyed;
  promotes = promote_revision-Keyed;
}

-- The tables of sources and of search rows are the same.
record SameSearch (db db' : Database) : Type 0 where
  sources : db'.source_files ≡ db.source_files
  fts : db'.segments_fts ≡ db.segments_fts

SameSearch-Sound : (db db' : Database) → SameSearch db db' → Sound db → Sound db'
SameSearch-Sound db db' same sound = record {
  keyed = Keyed-same db db' same.sources sound.keyed;
  searchable =
      subst (λ sources. All (IsCurrent sources) db'.segments_fts) (sym same.sources)
        (subst (λ rows. All (IsCurrent db.source_files) rows) (sym same.fts) sound.searchable);
}

upsert_root-SameSearch :
    (root : Root) (db db' : Database) → upsert_root root db ≡ ok db' → SameSearch db db'
unfolding upsert_root
upsert_root-SameSearch root db db' h =
    let (unbroken, e) = unless-ok _ _ db' h in
    record {
      sources = ap (λ (d : Database). d.source_files) (sym e);
      fts = ap (λ (d : Database). d.segments_fts) (sym e);
    }

insert_scan_run-SameSearch :
    (run : ScanRun) (db db' : Database) → insert_scan_run run db ≡ ok db' → SameSearch db db'
unfolding insert_scan_run
insert_scan_run-SameSearch run db db' h =
    let (unbroken, e) = unless-ok _ _ db' h in
    record {
      sources = ap (λ (d : Database). d.source_files) (sym e);
      fts = ap (λ (d : Database). d.segments_fts) (sym e);
    }

-- A deletion of one source keeps the rows of another to its revision, or without one.
mark_source_deleted-AgreesOrGone :
    (source other : SourceFile) (deleted_at : Timestamp) (db : Database)
    → AgreesOrGone other db
    → AgreesOrGone other (mark_source_deleted source deleted_at db)
unfolding mark_source_deleted removed
mark_source_deleted-AgreesOrGone source other deleted_at db agrees =
    All-map (removed source.id deleted_at)
      (λ (s : SourceFile).
        (s.id ≢ other.id)
        ⊎ (s.current_revision_id ≡ other.current_revision_id)
        ⊎ (s.current_revision_id ≡ none))
      db.source_files
      (All-imp
        (λ s held. elim (Bool-cases (s.id == source.id)) [
          | inl own ↦ rw own (inr (inr refl))
          | inr differs ↦ rw differs held
        ])
        db.source_files agrees)

mark_unseen-Sound :
    (mark_error : SourceFile → Option IndexError) (deleted_at : Timestamp)
    (documents : List DiscoveredDocument) (sources : List SourceFile) (n : ℕ) (db : Database)
    → All (λ source. AgreesOrGone source db) sources
    → Sound db
    → Sound (mark_unseen mark_error deleted_at documents sources n db).0
unfolding mark_unseen
mark_unseen-Sound mark_error deleted_at documents [] n db agree sound = sound
mark_unseen-Sound mark_error deleted_at documents (source ∷ sources) n db (first, agree) sound =
    elim (Bool-cases (is_seen documents source.relative_path)) [
      | inl seen ↦
          rw seen (mark_unseen-Sound mark_error deleted_at documents sources n db agree sound)
      | inr unseen ↦ elim (Option-cases (mark_error source)) [
        | inr (e, fails) ↦ rw (unseen, fails) sound
        | inl marks ↦
            let (searchable, gone) =
              delete-Searchable source deleted_at db first sound.searchable in
            rw (unseen, marks)
              (mark_unseen-Sound mark_error deleted_at documents sources _
                (mark_source_deleted source deleted_at db)
                (All-imp (λ other. mark_source_deleted-AgreesOrGone source other deleted_at db)
                  sources agree)
                (record {
                  keyed = mark_source_deleted-Keyed source deleted_at db sound.keyed;
                  searchable = searchable;
                }))
      ]
    ]

-- A row that is stored has the current revision of each row with its identifier.
pub stored-AgreesOrGone :
    (source : SourceFile) (db : Database)
    → Keyed db
    → In source db.source_files
    → AgreesOrGone source db
stored-AgreesOrGone source db keyed m = All-of_In _ db.source_files (λ s m'.
    elim (Bool-cases (s.id == source.id)) [
      | inl own ↦
          let same : s ≡ source = keyed s source m' m (inr ((==_iff s.id source.id).0 own)) in
          inr (inl (ap (λ (r : SourceFile). r.current_revision_id) same))
      | inr differs ↦
          inl (λ e. let own = (==_iff s.id source.id).1 e in absurd (ground (arith, own, differs)))
    ])

-- A row that is stored, and deleted.
pub stored_deletion-Sound :
    (source : SourceFile) (deleted_at : Timestamp) (db : Database)
    → In source db.source_files
    → Sound db
    → Sound (mark_source_deleted source deleted_at db)
stored_deletion-Sound source deleted_at db m sound = record {
  keyed = mark_source_deleted-Keyed source deleted_at db sound.keyed;
  searchable =
      (delete-Searchable source deleted_at db (stored-AgreesOrGone source db sound.keyed m)
        sound.searchable).0;
}

list_active_source_files-AgreesOrGone :
    (root_id : ℕ) (db : Database)
    → Keyed db
    → All (λ source. AgreesOrGone source db) (list_active_source_files root_id db)
unfolding list_active_source_files
list_active_source_files-AgreesOrGone root_id db keyed =
    All-sort_by _ (λ source. AgreesOrGone source db) _
      (All-of_In _ _
        (λ source m. stored-AgreesOrGone source db keyed (In-filter _ db.source_files m).0))

with_time-Holds :
    (P : Database → Type 0) (time : Result DomainError Timestamp) (db : Database)
    (next : Timestamp → Scanned)
    → P db
    → ((now : Timestamp) → P (next now).0)
    → P (with_time time db next).0
unfolding with_time
with_time-Holds P (ok now) db next kept f = f now
with_time-Holds P (err e) db next kept f = kept

module _ (scan : ScanContext) (root : Root) (registry : ParserRegistry) where
  pub then_scan-Holds :
      (P : Database → Type 0) (db : Database) (o : Outcome) (next : Database → Scanned)
      → P db
      → ((db' : Database) → o ≡ ok db' → P (next db').0)
      → P (then_scan scan root registry db o next).0
  unfolding then_scan
  then_scan-Holds P db (ok db') next kept f = f db' refl
  then_scan-Holds P db (err e) next kept f = kept

  pub process_documents-Sound :
      (documents : List DiscoveredDocument) (counters : Counters) (db : Database)
      → Sound db
      → Sound (process_documents scan root registry documents counters db).0
  unfolding process_documents
  process_documents-Sound [] counters db sound = sound
  process_documents-Sound (document ∷ documents) counters db sound =
      let context = scan.context_of document in
      let processed = process_document context root document registry (scan.read document) db in
      process_documents-Sound documents (count_outcome processed.1 counters) processed.0 (record {
        keyed =
            process_document-Preserved Keyed Keyed-Preserved context root document db sound.keyed
              registry (scan.read document);
        searchable =
            process_document-Searchable context root document db sound.keyed sound.searchable
              registry (scan.read document);
      })

  run-Sound :
      (run : ScanRun) (db : Database) (next : Database → Scanned)
      → ((db' : Database) → (next db').0 ≡ db')
      → Sound db
      → Sound (then_scan scan root registry db (insert_scan_run run db) next).0
  run-Sound run db next ends sound = then_scan-Holds Sound db _ next sound (λ db' e.
      subst Sound (sym (ends db'))
        (SameSearch-Sound db db' (insert_scan_run-SameSearch run db db' e) sound))

  finish_scan-Sound :
      (base : GitBase) (started_at : Timestamp) (discovery : DiscoveryReport) (counters : Counters)
      (marked : Database × Result IndexError ℕ)
      → Sound marked.0
      → Sound (finish_scan scan root registry base started_at discovery counters marked).0
  unfolding finish_scan
  finish_scan-Sound base started_at discovery counters (db, err e) sound = sound
  finish_scan-Sound base started_at discovery counters (db, ok deletions) sound =
      with_time-Holds Sound scan.completed_at db _ sound
        (λ completed_at. run-Sound _ db _ (λ db'. refl) sound)

  mark_and_finish-Sound :
      (base : GitBase) (started_at : Timestamp) (discovery : DiscoveryReport)
      (indexed : Database × Counters)
      → Sound indexed.0
      → Sound (mark_and_finish scan root registry base started_at discovery indexed).0
  unfolding mark_and_finish
  mark_and_finish-Sound base started_at discovery (db, counters) sound =
      elim (Option-cases scan.list_error) [
        | inr (e, fails) ↦ rw fails sound
        | inl lists ↦ rw lists (
            with_time-Holds Sound scan.deleted_at db _ sound (λ deleted_at.
              finish_scan-Sound base started_at discovery counters _ (
                mark_unseen-Sound scan.mark_error deleted_at discovery.documents
                  (list_active_source_files root.id db) 0 db
                  (list_active_source_files-AgreesOrGone root.id db sound.keyed) sound)))
      ]

  scan_documents-Sound :
      (base : GitBase) (started_at : Timestamp) (discovery : DiscoveryReport) (db : Database)
      → Sound db
      → Sound (scan_documents scan root registry base started_at discovery db).0
  unfolding scan_documents
  scan_documents-Sound base started_at discovery db sound =
      mark_and_finish-Sound base started_at discovery
        (process_documents scan root registry discovery.documents no_counts db)
        (process_documents-Sound discovery.documents no_counts db sound)

  -- A full scan of a root, whatever it comes to, keeps one row of sources for an identifier and for a
  -- place, and search rows that belong to the current revisions of active sources.
  pub index_one_root_full-Sound :
      (outside : Outside) (base : GitBase) (db : Database)
      → Sound db
      → Sound (index_one_root_full scan root registry outside base db).0
  unfolding index_one_root_full scan_failed
  index_one_root_full-Sound outside base db sound =
      with_time-Holds Sound scan.started_at db _ sound (λ started_at.
        then_scan-Holds Sound db _ _ sound (λ db' e.
          let kept = SameSearch-Sound db db' (upsert_root-SameSearch root db db' e) sound in
          elim (Result-cases (discover_root outside root default_options)) [
            | inr (discovery, found) ↦
                rw found (scan_documents-Sound base started_at discovery db' kept)
            | inl (error, failed) ↦ rw failed (
                with_time-Holds Sound scan.completed_at db' _ kept
                  (λ completed_at. run-Sound _ db' _ (λ db''. refl) kept))
          ]))
