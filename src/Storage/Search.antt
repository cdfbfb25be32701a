-- ===== src/Storage/Search.antt =====
-- The search rows after a promotion and after a deletion, and the content that cannot come back.
use omni_sem.Base.{
  ℕ, ◌≡◌, ◌≢◌, refl, sym, ap, subst, ◌∙◌, inl, inr, true, false, not, Option, none, some, List,
  ◌++◌, map, ◌==◌, ==_iff, any, arith, Bool-cases, In, In-filter, map-In, All, All-In, All-append,
  All-of_In, All-map, All-imp, ◌⊎◌,
}
use omni_sem.Domain.{ok, Timestamp}
use omni_sem.Domain.Records.{SourceFile, Revision, Segment}
use omni_sem.Storage.{
  StorageError, constraint, FtsRow, Database, unless, delete_fts, same_content, insert_revision,
  fts_row, promoted, update_promoted, promote_revision, promote_statements, Ran, run, transaction,
  insert_segments, mark_source_deleted, removed,
}
use omni_sem.Storage.Promotion.{
  IsCurrent, Searchable, Agrees, In-any, run-done, then_run-done, transaction-done, unless-ok,
  insert_segments-Inserted, kept-IsCurrent, new-IsCurrent,
}

In-delete_fts :
    (current : Option ℕ) (rows : List FtsRow) {f : FtsRow}
    → In f (delete_fts current rows)
    → In f rows × (current ≢ some f.revision_id)
unfolding delete_fts
In-delete_fts none rows m = (m, λ e. cc)
In-delete_fts (some previous) rows {f} m =
    let (m', q) = In-filter (λ (g : FtsRow). not (g.revision_id == previous)) rows m in
    (m', differs q)
  where
    differs : not (f.revision_id == previous) ≡ true → some previous ≢ some f.revision_id
    differs q e =
        let same : previous ≡ f.revision_id = cc in
        absurd (ground (arith, (==_iff f.revision_id previous).1 (sym same)))

-- A promotion is done, or it fails and the database is what it was.
pub promote_revision-cases :
    (source : SourceFile) (revision : Revision) (segments : List Segment) (db : Database)
    → ((db' : Database) × (promote_revision source revision segments db ≡ (db', none)))
      ⊎ ((e : StorageError) × (promote_revision source revision segments db ≡ (db, some e)))
unfolding promote_revision transaction
promote_revision-cases source revision segments db =
    of_transaction (promote_statements source revision segments db)
  where
    of_transaction :
        (ran : Ran)
        → ((db' : Database) × (transaction db ran ≡ (db', none)))
          ⊎ ((e : StorageError) × (transaction db ran ≡ (db, some e)))
    of_transaction (db', none) = inl (db', refl)
    of_transaction (db', some e) = inr (e, refl)

-- The databases that a promotion that succeeds goes through.
pub record Steps (source : SourceFile) (revision : Revision) (segments : List Segment)
    (db db' : Database) : Type 0 where
  pub mid : Database
  pub full : Database
  pub first :
      insert_revision revision
        (record db { segments_fts = delete_fts source.current_revision_id db.segments_fts })
      ≡ ok mid
  pub inserted : insert_segments source revision segments mid ≡ (full, none)
  pub last : update_promoted source revision full ≡ db'

pub promote_revision-Steps :
    (source : SourceFile) (revision : Revision) (segments : List Segment) (db db' : Database)
    → promote_revision source revision segments db ≡ (db', none)
    → Steps source revision segments db db'
unfolding promote_revision promote_statements
promote_revision-Steps source revision segments db db' h =
    let (mid, first, later) = run-done _ _ _ db' (transaction-done db _ db' h) in
    let (full, inserted, last) = then_run-done _ _ db' later in
    record {
      mid = mid;
      full = full;
      first = first;
      inserted = inserted;
      last = ap (λ (r : Ran). r.0) last;
    }

-- What a promotion that succeeds has done.
pub record Promotes (source : SourceFile) (revision : Revision) (segments : List Segment)
    (db db' : Database) : Type 0 where
  pub sources : db'.source_files ≡ map (promoted source revision.id) db.source_files
  pub texts : db'.segments ≡ db.segments ++ segments
  pub fts :
      db'.segments_fts
      ≡ delete_fts source.current_revision_id db.segments_fts
        ++ map (fts_row source revision) segments
  pub known : any (λ (s : SourceFile). s.id == revision.source_file_id) db.source_files ≡ true

pub promote_revision-Promotes :
    (source : SourceFile) (revision : Revision) (segments : List Segment) (db db' : Database)
    → promote_revision source revision segments db ≡ (db', none)
    → Promotes source revision segments db db'
unfolding insert_revision update_promoted
promote_revision-Promotes source revision segments db db' h =
    let steps = promote_revision-Steps source revision segments db db' h in
    let (unbroken, e) = unless-ok _ _ steps.mid steps.first in
    let i = insert_segments-Inserted source revision segments steps.mid steps.full steps.inserted in
    record {
      sources =
          ap (λ (d : Database). d.source_files) (sym steps.last)
          ∙ ap (map (promoted source revision.id))
              (i.sources ∙ ap (λ (d : Database). d.source_files) (sym e));
      texts =
          ap (λ (d : Database). d.segments) (sym steps.last)
          ∙ i.segments
          ∙ ap (λ (d : Database). d.segments ++ segments) (sym e);
      fts =
          ap (λ (d : Database). d.segments_fts) (sym steps.last)
          ∙ i.fts
          ∙ ap (λ (d : Database). d.segments_fts ++ map (fts_row source revision) segments) (sym e);
      known = ground arith;
    }

-- A promotion that succeeds, of a source whose stored rows have its current revision and of a
-- revision of that source, keeps the search rows to the current revisions of active sources: the
-- rows of the previous revision are gone, and those of the new segments follow the others.
pub promote_revision-Searchable :
    (source : SourceFile) (revision : Revision) (segments : List Segment) (db db' : Database)
    → revision.source_file_id ≡ source.id
    → Agrees source db
    → Searchable db
    → promote_revision source revision segments db ≡ (db', none)
    → Searchable db'
      × (db'.segments_fts
          ≡ delete_fts source.current_revision_id db.segments_fts
            ++ map (fts_row source revision) segments)
promote_revision-Searchable source revision segments db db' own agrees searchable h =
    let p = promote_revision-Promotes source revision segments db db' h in
    let sources = map (promoted source revision.id) db.source_files in
    let known =
      subst (λ n. any (λ (s : SourceFile). s.id == n) db.source_files ≡ true) own p.known in
    let kept : All (IsCurrent sources) (delete_fts source.current_revision_id db.segments_fts) =
      All-of_In (IsCurrent sources) (delete_fts source.current_revision_id db.segments_fts) (λ f m.
        let (m', differs) = In-delete_fts source.current_revision_id db.segments_fts m in
        kept-IsCurrent source revision db.source_files f agrees differs
          (All-In (IsCurrent db.source_files) searchable m')) in
    let added : All (IsCurrent sources) (map (fts_row source revision) segments) =
      All-map (fts_row source revision) (IsCurrent sources) segments (
        All-of_In (λ g. IsCurrent sources (fts_row source revision g)) segments
          (λ g m. new-IsCurrent source revision db.source_files g known)) in
    (rw (p.sources, p.fts) (All-append (IsCurrent sources) _ _ kept added), p.fts)

-- A revision of a source with content, parser and version that some stored revision of the source
-- has, current or not, is never promoted, and the database stays.
pub promote_revision-repeated :
    (source : SourceFile) (revision r : Revision) (segments : List Segment) (db : Database)
    → In r db.revisions
    → same_content revision r ≡ true
    → promote_revision source revision segments db ≡ (db, some constraint)
unfolding promote_revision promote_statements insert_revision unless run transaction
promote_revision-repeated source revision r segments db m same =
    let found = In-any (same_content revision) m same in
    elim (Bool-cases (any (λ (s : Revision). s.id == revision.id) db.revisions)) [
      | inl taken ↦ rw taken refl
      | inr free ↦ rw (free, found) refl
    ]

-- Each row of the source has its current revision, or none.
abbrev pub AgreesOrGone : SourceFile → Database → Type 0
AgreesOrGone source db =
    All
      (λ (s : SourceFile).
        (s.id ≢ source.id)
        ⊎ (s.current_revision_id ≡ source.current_revision_id)
        ⊎ (s.current_revision_id ≡ none))
      db.source_files

pub delete-Searchable :
    (source : SourceFile) (deleted_at : Timestamp) (db : Database)
    → AgreesOrGone source db
    → Searchable db
    → Searchable (mark_source_deleted source deleted_at db)
      × All
          (λ (f : FtsRow). f.source_file_id ≢ source.id)
          (mark_source_deleted source deleted_at db).segments_fts
unfolding mark_source_deleted removed
delete-Searchable source deleted_at db agrees searchable = (
  All-of_In (IsCurrent sources) rows (λ f m. let (current, other) = stays f m in current),
  All-of_In (λ (f : FtsRow). f.source_file_id ≢ source.id) rows
      (λ f m. let (current, other) = stays f m in other),
)
  where
    rows : List FtsRow
    rows = delete_fts source.current_revision_id db.segments_fts

    sources : List SourceFile
    sources = map (removed source.id deleted_at) db.source_files

    stays : (f : FtsRow) → In f rows → IsCurrent sources f × (f.source_file_id ≢ source.id)
    stays f m =
        let (m', differs) = In-delete_fts source.current_revision_id db.segments_fts m in
        let (s, at, same, current, is_active) = All-In (IsCurrent db.source_files) searchable m' in
        elim (All-In _ agrees at) [
          | inr (inl held) ↦ absurd (differs (sym held ∙ current))
          | inr (inr gone) ↦ let clash : none ≡ some f.revision_id = sym gone ∙ current in absurd cc
          | inl other ↦
              let e : (s.id == source.id) ≡ false = elim (Bool-cases (s.id == source.id)) [
                | inl equal ↦ absurd (other ((==_iff s.id source.id).0 equal))
                | inr unequal ↦ unequal
              ] in
              let unchanged : removed source.id deleted_at s ≡ s = rw (removed, e) refl in
              (
                (
                  s,
                  subst (λ (r : SourceFile). In r sources) unchanged
                      (map-In (removed source.id deleted_at) at),
                  same,
                  current,
                  is_active,
                ),
                λ p. other (same ∙ p),
              )
        ]

-- After a deletion of a source whose stored rows have its current revision, the search rows belong
-- to current revisions of active sources, and none belongs to the source.
pub mark_source_deleted-Searchable :
    (source : SourceFile) (deleted_at : Timestamp) (db : Database)
    → Agrees source db
    → Searchable db
    → Searchable (mark_source_deleted source deleted_at db)
      × All
          (λ (f : FtsRow). f.source_file_id ≢ source.id)
          (mark_source_deleted source deleted_at db).segments_fts
mark_source_deleted-Searchable source deleted_at db agrees =
    delete-Searchable source deleted_at db (
      All-imp (λ s held. elim held [ inl other ↦ inl other | inr same ↦ inr (inl same) ])
        db.source_files agrees)
