-- ===== src/Index/Scan/Unseen.antt =====
-- After a full scan the active sources of the root are among the documents that were discovered.
use omni_sem.Base.{
  Option, Option-cases, ℕ, ◌≡◌, ◌≢◌, refl, sym, ap, subst, ◌∙◌, ◌⊎◌, inl, inr, true, false, List,
  [], ◌∷◌, ◌==◌, ==_iff, arith, Bool-cases, In, In-map, sort_by-In, filter-In, All, All-In,
}
use omni_sem.Domain.{DomainError, Result, Timestamp, ok, err}
use omni_sem.Domain.Records.{Root, DiscoveredDocument, SourceFile, ScanRun}
use omni_sem.Parsing.Registry.{ParserRegistry}
use omni_sem.Storage.{Database, Outcome, removed, mark_source_deleted}
use omni_sem.Storage.Promotion.{unless-ok}
use omni_sem.Storage.Scans.{upsert_root, is_active, list_active_source_files, insert_scan_run}
use omni_sem.Discovery.{DiscoveryReport, Outside, default_options}
use omni_sem.Discovery.Walk.{discover_root}
use omni_sem.Index.{IndexError, domain, storage}
use omni_sem.Index.Scan.{
  Counters, with_time, finish_scan, mark_and_finish, RootIndexReport, no_counts, ScanContext,
  GitBase, Scanned, is_seen, mark_unseen, process_documents, then_scan, scan_documents,
  index_one_root_full,
}

-- What the clock is followed by when it answers.
pub with_time-ok :
    (time : Result DomainError Timestamp) (db : Database) (next : Timestamp → Scanned)
    (report : RootIndexReport)
    → (with_time time db next).1 ≡ ok report
    → (now : Timestamp) × (with_time time db next ≡ next now) × ((next now).1 ≡ ok report)
unfolding with_time
with_time-ok (ok now) db next report h = (now, refl, h)
with_time-ok (err e) db next report h = let clash : err (domain e) ≡ ok report = h in absurd cc

-- What a statement that succeeds is followed by.
pub then_scan-ok :
    (scan : ScanContext) (root : Root) (registry : ParserRegistry) (db : Database) (o : Outcome)
    (next : Database → Scanned) (report : RootIndexReport)
    → (then_scan scan root registry db o next).1 ≡ ok report
    → (db' : Database) × (o ≡ ok db')
      × (then_scan scan root registry db o next ≡ next db')
      × ((next db').1 ≡ ok report)
unfolding then_scan
then_scan-ok scan root registry db (ok db') next report h = (db', refl, refl, h)
then_scan-ok scan root registry db (err e) next report h =
    let clash : err (storage e) ≡ ok report = h in absurd cc

pub insert_scan_run-sources :
    (run : ScanRun) (db db' : Database)
    → insert_scan_run run db ≡ ok db'
    → db'.source_files ≡ db.source_files
unfolding insert_scan_run
insert_scan_run-sources run db db' h =
    let (unbroken, e) = unless-ok _ _ db' h in ap (λ (d : Database). d.source_files) (sym e)

module _ (deleted_at : Timestamp) (documents : List DiscoveredDocument) where
  -- An active row was there before, and is not one of the sources that were not seen.
  abbrev WasSeen : SourceFile → SourceFile → Type 0
  WasSeen t source = (is_seen documents source.relative_path ≡ true) ⊎ (t.id ≢ source.id)

  removed-active :
      (id : ℕ) (s : SourceFile)
      → is_active (removed id deleted_at s).state ≡ true
      → (removed id deleted_at s ≡ s) × (s.id ≢ id)
  unfolding removed is_active
  removed-active id s h = elim (Bool-cases (s.id == id)) [
    | inl own ↦ absurd (false_true (rw own at h))
    | inr other ↦ (
      rw (removed, other) refl,
      λ e. let own = (==_iff s.id id).1 e in absurd (ground (arith, own, other)),
    )
  ]
    where
      false_true : false ≡ true → ⊥
      false_true e = cc

  mark_unseen-active :
      (mark_error : SourceFile → Option IndexError) (sources : List SourceFile) (n : ℕ)
      (db : Database) (deletions : ℕ) {t : SourceFile}
      → (mark_unseen mark_error deleted_at documents sources n db).1 ≡ ok deletions
      → In t (mark_unseen mark_error deleted_at documents sources n db).0.source_files
      → is_active t.state ≡ true
      → In t db.source_files × All (WasSeen t) sources
  unfolding mark_unseen mark_source_deleted
  mark_unseen-active mark_error [] n db deletions done m active = (m, tt)
  mark_unseen-active mark_error (source ∷ sources) n db deletions {t} done m active =
      elim (Bool-cases (is_seen documents source.relative_path)) [
        | inl seen ↦
            let (m', rest) =
              mark_unseen-active mark_error sources n db deletions (rw seen at done) (rw seen at m)
                active in
            (m', (inl seen, rest))
        | inr unseen ↦ elim (Option-cases (mark_error source)) [
          | inr (e, fails) ↦
              let clash : err e ≡ ok deletions = rw (unseen, fails) at done in absurd cc
          | inl marks ↦
              let (m', rest) =
                mark_unseen-active mark_error sources _ (mark_source_deleted source deleted_at db)
                  deletions (rw (unseen, marks) at done) (rw (unseen, marks) at m) active in
              let (s, m'', e) = In-map (removed source.id deleted_at) db.source_files m' in
              let (same, other) =
                removed-active source.id s (subst (λ r. is_active r.state ≡ true) e active) in
              let stays : t ≡ s = e ∙ same in
              (
                subst (λ r. In r db.source_files) (sym stays) m'',
                (inr (λ own. other (ap (λ (r : SourceFile). r.id) (sym stays) ∙ own)), rest),
              )
        ]
      ]

list_active_source_files-In :
    (root_id : ℕ) (db : Database) {s : SourceFile}
    → In s db.source_files
    → s.root_id ≡ root_id
    → is_active s.state ≡ true
    → In s (list_active_source_files root_id db)
unfolding list_active_source_files
list_active_source_files-In root_id db {s} m own active =
    let same = (==_iff s.root_id root_id).1 own in
    sort_by-In _ (filter-In _ m (rw (same, active) refl))

module _ (scan : ScanContext) (outside : Outside) (root : Root) (registry : ParserRegistry)
    (base : GitBase) (started_at : Timestamp) (discovery : DiscoveryReport)
    (report : RootIndexReport) where
  -- A scan that gives a report has marked its sources, and then changes none.
  finish_scan-done :
      (counters : Counters) (marked : Database × Result IndexError ℕ)
      → (finish_scan scan root registry base started_at discovery counters marked).1 ≡ ok report
      → (deletions : ℕ) × (marked.1 ≡ ok deletions)
        × ((finish_scan scan root registry base started_at discovery counters marked).0.source_files
            ≡ marked.0.source_files)
  unfolding finish_scan
  finish_scan-done counters (db, err e) h = let clash : err e ≡ ok report = h in absurd cc
  finish_scan-done counters (db, ok deletions) h =
      let (completed_at, timed, h') = with_time-ok scan.completed_at db _ report h in
      let (db', inserted, result, done) = then_scan-ok scan root registry _ _ _ report h' in
      (
        deletions,
        refl,
        ap (λ (r : Scanned). r.0.source_files) (timed ∙ result)
            ∙ insert_scan_run-sources _ _ db' inserted,
      )

  mark_and_finish-is_seen :
      (indexed : Database × Counters)
      → (mark_and_finish scan root registry base started_at discovery indexed).1 ≡ ok report
      → (s : SourceFile)
      → In s (mark_and_finish scan root registry base started_at discovery indexed).0.source_files
      → s.root_id ≡ root.id
      → is_active s.state ≡ true
      → is_seen discovery.documents s.relative_path ≡ true
  unfolding mark_and_finish
  mark_and_finish-is_seen (db, counters) h s m own active = elim (Option-cases scan.list_error) [
    | inr (e, fails) ↦ let clash : err e ≡ ok report = rw fails at h in absurd cc
    | inl lists ↦
        let sources = list_active_source_files root.id db in
        let (deleted_at, timed, h') = with_time-ok scan.deleted_at db _ report (rw lists at h) in
        let marked = mark_unseen scan.mark_error deleted_at discovery.documents sources 0 db in
        let (deletions, done, same) = finish_scan-done counters marked h' in
        let m' : In s marked.0.source_files =
          subst (λ l. In s l) same
            (subst (λ (r : Scanned). In s r.0.source_files) timed (rw lists at m)) in
        let (before, seen) =
          mark_unseen-active deleted_at discovery.documents scan.mark_error sources 0 db deletions
            done m' active in
        elim (All-In (WasSeen deleted_at discovery.documents s) seen
          (list_active_source_files-In root.id db before own active)) [
            | inl found ↦ found
            | inr other ↦ absurd (other refl)
          ]
  ]

module _ (scan : ScanContext) (outside : Outside) (root : Root) (registry : ParserRegistry) where
  -- When the discovery succeeds and a full scan gives a report, each active source of the root that
  -- is then stored has the path of a document that was discovered.
  pub index_one_root_full-is_seen :
      (base : GitBase) (discovery : DiscoveryReport) (db : Database) (report : RootIndexReport)
      → discover_root outside root default_options ≡ ok discovery
      → (index_one_root_full scan root registry outside base db).1 ≡ ok report
      → (s : SourceFile)
      → In s (index_one_root_full scan root registry outside base db).0.source_files
      → s.root_id ≡ root.id
      → is_active s.state ≡ true
      → is_seen discovery.documents s.relative_path ≡ true
  unfolding index_one_root_full scan_documents
  index_one_root_full-is_seen base discovery db report found h s m own active =
      let (started_at, timed, h') = with_time-ok scan.started_at db _ report h in
      let (db', stored, result, done) =
        then_scan-ok scan root registry db (upsert_root root db) _ report h' in
      mark_and_finish-is_seen scan outside root registry base started_at discovery report
        (process_documents scan root registry discovery.documents no_counts db') (rw found at done)
        s (rw found at (subst (λ (r : Scanned). In s r.0.source_files) (timed ∙ result) m)) own
        active
