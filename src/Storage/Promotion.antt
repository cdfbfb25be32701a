-- ===== src/Storage/Promotion.antt =====
-- Promotion keeps the search rows to the current revisions of active sources, and fails on content
-- that the source has had before.
use omni_sem.Base.{
  none, ◌≡◌, ◌≢◌, refl, sym, ap, subst, ◌∙◌, ◌⊎◌, inl, inr, Bool, true, false, some, List, [], ◌∷◌,
  ◌++◌, map, ◌==◌, ==_iff, any, arith, Bool-cases, In, here, there, map-In, All, All-In,
  append_assoc, append-nil,
}
use omni_sem.Domain.{active, ok, err}
use omni_sem.Domain.Records.{SourceFile, Revision, Segment}
use omni_sem.Storage.{
  FtsRow, Database, Outcome, Ran, run, then_run, transaction, unless, insert_segment,
  insert_segments, insert_fts, fts_row, promoted,
}

-- A search row belongs to the current revision of an active source.
abbrev pub IsCurrent : List SourceFile → FtsRow → Type 0
IsCurrent sources f =
    (s : SourceFile) × In s sources
    × (s.id ≡ f.source_file_id)
    × (s.current_revision_id ≡ some f.revision_id)
    × (s.state ≡ active)

abbrev pub Searchable : Database → Type 0
Searchable db = All (IsCurrent db.source_files) db.segments_fts

-- The stored rows with the source's identifier have its current revision.
abbrev pub Agrees : SourceFile → Database → Type 0
Agrees source db =
    All
      (λ (s : SourceFile).
        (s.id ≢ source.id) ⊎ (s.current_revision_id ≡ source.current_revision_id))
      db.source_files

pub any-In {ℓ} :
    {A : Type ℓ} (p : A → Bool) (xs : List A) → any p xs ≡ true → (a : A) × In a xs × (p a ≡ true)
any-In p [] h = cc
any-In p (x ∷ xs) h = elim (Bool-cases (p x)) [
  | inl good ↦ (x, here, good)
  | inr bad ↦ let (a, m, q) = any-In p xs (rw bad at h) in (a, there m, q)
]

pub In-any {ℓ} :
    {A : Type ℓ} (p : A → Bool) {a : A} {xs : List A} → In a xs → p a ≡ true → any p xs ≡ true
In-any p here h = rw h refl
In-any p (there {x} {xs} m) h = ground (arith, In-any p m h)

pub unless-ok :
    (broken : Bool) (db db' : Database) → unless broken db ≡ ok db' → (broken ≡ false) × (db ≡ db')
unfolding unless
unless-ok true db db' h = cc
unless-ok false db db' h = (refl, cc)

pub run-done :
    (db : Database) (o : Outcome) (next : Database → Ran) (db' : Database)
    → run db o next ≡ (db', none)
    → (a : Database) × (o ≡ ok a) × (next a ≡ (db', none))
unfolding run
run-done db (ok a) next db' h = (a, refl, h)
run-done db (err e) next db' h = let clash : some e ≡ none = ap (λ (r : Ran). r.1) h in absurd cc

pub then_run-done :
    (ran : Ran) (next : Database → Ran) (db' : Database)
    → then_run ran next ≡ (db', none)
    → (a : Database) × (ran ≡ (a, none)) × (next a ≡ (db', none))
unfolding then_run
then_run-done (a, none) next db' h = (a, refl, h)
then_run-done (a, some e) next db' h =
    let clash : some e ≡ none = ap (λ (r : Ran). r.1) h in absurd cc

pub transaction-done :
    (db : Database) (ran : Ran) (db' : Database)
    → transaction db ran ≡ (db', none)
    → ran ≡ (db', none)
unfolding transaction
transaction-done db (a, none) db' h = h
transaction-done db (a, some e) db' h =
    let clash : some e ≡ none = ap (λ (r : Ran). r.1) h in absurd cc

-- What the insertions do.
pub record Inserted (added : List Segment) (rows : List FtsRow) (db db' : Database) : Type 0 where
  pub segments : db'.segments ≡ db.segments ++ added
  pub sources : db'.source_files ≡ db.source_files
  pub fts : db'.segments_fts ≡ db.segments_fts ++ rows

pub insert_segments-Inserted :
    (source : SourceFile) (revision : Revision) (segments : List Segment) (db db' : Database)
    → insert_segments source revision segments db ≡ (db', none)
    → Inserted segments (map (fts_row source revision) segments) db db'
unfolding insert_segments insert_segment insert_fts
insert_segments-Inserted source revision [] db db' h =
    let e : db' ≡ db = sym (ap (λ (r : Ran). r.0) h) in
    record {
      sources = ap (λ (d : Database). d.source_files) e;
      segments = ap (λ (d : Database). d.segments) e ∙ sym (append-nil db.segments);
      fts = ap (λ (d : Database). d.segments_fts) e ∙ sym (append-nil db.segments_fts);
    }
insert_segments-Inserted source revision (g ∷ segments) db db' h =
    let (mid, first, later) = run-done db _ _ db' h in
    let (unbroken, e) = unless-ok _ _ mid first in
    let row = fts_row source revision g in
    let ih = insert_segments-Inserted source revision segments (insert_fts row mid) db' later in
    record {
      sources = ih.sources ∙ ap (λ (d : Database). d.source_files) (sym e);
      segments =
          ih.segments
          ∙ ap (λ (d : Database). d.segments ++ segments) (sym e)
          ∙ append_assoc db.segments (g ∷ []) segments;
      fts =
          ih.fts
          ∙ ap
              (λ (d : Database).
                (d.segments_fts ++ row ∷ []) ++ map (fts_row source revision) segments)
              (sym e)
          ∙ append_assoc db.segments_fts (row ∷ []) (map (fts_row source revision) segments);
    }

-- The rows that stay point at other sources.
pub kept-IsCurrent :
    (source : SourceFile) (revision : Revision) (sources : List SourceFile) (f : FtsRow)
    → All
        (λ (s : SourceFile).
          (s.id ≢ source.id) ⊎ (s.current_revision_id ≡ source.current_revision_id))
        sources
    → source.current_revision_id ≢ some f.revision_id
    → IsCurrent sources f
    → IsCurrent (map (promoted source revision.id) sources) f
unfolding promoted
kept-IsCurrent source revision sources f agrees differs (s, m, same, current, is_active) =
    elim (All-In _ agrees m) [
      | inr held ↦ absurd (differs (sym held ∙ current))
      | inl other ↦
          let e : (s.id == source.id) ≡ false = elim (Bool-cases (s.id == source.id)) [
            | inl equal ↦ absurd (other ((==_iff s.id source.id).0 equal))
            | inr unequal ↦ unequal
          ] in
          let unchanged : promoted source revision.id s ≡ s = rw (promoted, e) refl in
          (
            s,
            subst (λ (r : SourceFile). In r (map (promoted source revision.id) sources)) unchanged
                (map-In (promoted source revision.id) m),
            same,
            current,
            is_active,
          )
    ]

pub new-IsCurrent :
    (source : SourceFile) (revision : Revision) (sources : List SourceFile) (g : Segment)
    → any (λ (s : SourceFile). s.id == source.id) sources ≡ true
    → IsCurrent (map (promoted source revision.id) sources) (fts_row source revision g)
unfolding promoted fts_row
new-IsCurrent source revision sources g found =
    let (s, m, e) = any-In (λ (s : SourceFile). s.id == source.id) sources found in
    let p = promoted source revision.id in
    (p s, map-In p m, rw e ((==_iff s.id source.id).0 e), rw e refl, rw e refl)
