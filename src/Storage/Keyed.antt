-- ===== src/Storage/Keyed.antt =====
-- The statements keep one row for an identifier and for a place.
use omni_sem.Base.{
  ℕ, ◌≡◌, refl, sym, ap, subst, ◌∙◌, ◌⊎◌, inl, inr, true, false, none, List, [], ◌∷◌, ◌++◌, map,
  ◌==◌, ==_iff, any, arith, Bool-cases, In, In-cons, In-map, In-append, text_eq_iff, min,
}
use omni_sem.Domain.{Timestamp, ok}
use omni_sem.Domain.Records.{SourceFile, Revision, Segment}
use omni_sem.Retrieval.Sensitivity.{match_text}
use omni_sem.Storage.{
  Database, i64_max, same_path, upserted, upsert_source_file, promoted, promote_revision,
  insert_revision, removed, mark_source_deleted,
}
use omni_sem.Storage.Promotion.{In-any, unless-ok}
use omni_sem.Storage.Search.{promote_revision-Promotes}
use omni_sem.Storage.Upsert.{Keyed}

-- Two rows have one identifier or one place.
abbrev SameKey : SourceFile → SourceFile → Type 0
SameKey s t = (same_path s t ≡ true) ⊎ (s.id ≡ t.id)

-- What a change of a row leaves as it was.
record KeepsKey (f : SourceFile → SourceFile) : Type 0 where
  id : (s : SourceFile) → (f s).id ≡ s.id
  root_id : (s : SourceFile) → (f s).root_id ≡ s.root_id
  path : (s : SourceFile) → (f s).relative_path ≡ s.relative_path

module _ (f : SourceFile → SourceFile) (keeps : KeepsKey f) (db db' : Database)
    (rows : db'.source_files ≡ map f db.source_files) where
  KeepsKey-SameKey : (s t : SourceFile) → SameKey (f s) (f t) → SameKey s t
  unfolding same_path
  KeepsKey-SameKey s t (inl place) =
      inl (rw (keeps.root_id s, keeps.root_id t, keeps.path s, keeps.path t) at place)
  KeepsKey-SameKey s t (inr own) = inr (sym (keeps.id s) ∙ own ∙ keeps.id t)

  KeepsKey-Keyed : Keyed db → Keyed db'
  KeepsKey-Keyed keyed s t m n same =
      let (s', m', e) = In-map f db.source_files (subst (λ r. In s r) rows m) in
      let (t', n', e') = In-map f db.source_files (subst (λ r. In t r) rows n) in
      let same' : SameKey (f s') (f t') =
        subst (λ r. SameKey r (f t')) e (subst (SameKey s) e' same) in
      e ∙ ap f (keyed s' t' m' n' (KeepsKey-SameKey s' t' same')) ∙ sym e'

promoted-KeepsKey : (source : SourceFile) (revision : ℕ) → KeepsKey (promoted source revision)
unfolding promoted
promoted-KeepsKey source revision = record {
  id = λ s. ground arith;
  root_id = λ s. ground arith;
  path = λ s. ground arith;
}

removed-KeepsKey : (id : ℕ) (deleted_at : Timestamp) → KeepsKey (removed id deleted_at)
unfolding removed
removed-KeepsKey id deleted_at = record {
  id = λ s. ground arith;
  root_id = λ s. ground arith;
  path = λ s. ground arith;
}

upserted-KeepsKey : (source : SourceFile) → KeepsKey (upserted source)
unfolding upserted
upserted-KeepsKey source = record {
  id = λ s. ground arith;
  root_id = λ s. ground arith;
  path = λ s. ground arith;
}

pub mark_source_deleted-Keyed :
    (source : SourceFile) (deleted_at : Timestamp) (db : Database)
    → Keyed db
    → Keyed (mark_source_deleted source deleted_at db)
unfolding mark_source_deleted
mark_source_deleted-Keyed source deleted_at db =
    KeepsKey-Keyed (removed source.id deleted_at) (removed-KeepsKey source.id deleted_at) db
      (mark_source_deleted source deleted_at db) refl

module _ (source stored : SourceFile) (db db' : Database) (own : stored.id ≡ source.id)
    (root : stored.root_id ≡ source.root_id) (path : stored.relative_path ≡ source.relative_path)
    (no_place : any (λ row. same_path row source) db.source_files ≡ false)
    (no_id : any (λ (row : SourceFile). row.id == source.id) db.source_files ≡ false) where
  new-SameKey : (s : SourceFile) → In s db.source_files → SameKey s stored → s ≡ stored
  unfolding same_path
  new-SameKey s m (inl place) =
      let place' : same_path s source ≡ true = rw (root, path) at place in
      let taken = In-any (λ row. same_path row source) m place' in absurd cc
  new-SameKey s m (inr same) =
      let taken =
        In-any (λ (row : SourceFile). row.id == source.id) m
          ((==_iff s.id source.id).1 (same ∙ own)) in
      absurd cc

  SameKey-sym : (s t : SourceFile) → SameKey s t → SameKey t s
  unfolding same_path
  SameKey-sym s t (inl place) = inl (
      ground (
        arith,
        text_eq_iff (match_text s.relative_path) (match_text t.relative_path),
        text_eq_iff (match_text t.relative_path) (match_text s.relative_path),
      ))
  SameKey-sym s t (inr same) = inr (sym same)

  added-Keyed : db'.source_files ≡ db.source_files ++ stored ∷ [] → Keyed db → Keyed db'
  added-Keyed rows keyed s t m n same =
      elim (In-append db.source_files (stored ∷ []) (subst (λ l. In s l) rows m)) [
        | inl old ↦ elim (In-append db.source_files (stored ∷ []) (subst (λ l. In t l) rows n)) [
          | inl old' ↦ keyed s t old old' same
          | inr last ↦ elim (In-cons last) [
            | inl e ↦ new-SameKey s old (subst (SameKey s) e same) ∙ sym e
            | inr none_left ↦ elim none_left [ ]
          ]
        ]
        | inr last ↦ elim (In-cons last) [
          | inl e ↦ elim (In-append db.source_files (stored ∷ []) (subst (λ l. In t l) rows n)) [
            | inl old' ↦ e ∙ sym (new-SameKey t old' (subst (SameKey t) e (SameKey-sym s t same)))
            | inr last' ↦ elim (In-cons last') [
              | inl e' ↦ e ∙ sym e'
              | inr none_left ↦ elim none_left [ ]
            ]
          ]
          | inr none_left ↦ elim none_left [ ]
        ]
      ]

-- The rows of source files are the same.
pub Keyed-same : (db db' : Database) → db'.source_files ≡ db.source_files → Keyed db → Keyed db'
Keyed-same db db' e keyed s t m n = keyed s t (subst (λ r. In s r) e m) (subst (λ r. In t r) e n)

pub insert_revision-Keyed :
    (r : Revision) (db db' : Database) → insert_revision r db ≡ ok db' → Keyed db → Keyed db'
unfolding insert_revision
insert_revision-Keyed r db db' h =
    let (unbroken, e) = unless-ok _ _ db' h in
    Keyed-same db db' (ap (λ (d : Database). d.source_files) (sym e))

pub promote_revision-Keyed :
    (source : SourceFile) (revision : Revision) (segments : List Segment) (db db' : Database)
    → promote_revision source revision segments db ≡ (db', none)
    → Keyed db
    → Keyed db'
promote_revision-Keyed source revision segments db db' h =
    let p = promote_revision-Promotes source revision segments db db' h in
    KeepsKey-Keyed (promoted source revision.id) (promoted-KeepsKey source revision.id) db db'
      p.sources

pub upsert_source_file-Keyed :
    (source : SourceFile) (db db' : Database)
    → upsert_source_file source db ≡ ok db'
    → Keyed db
    → Keyed db'
unfolding upsert_source_file
upsert_source_file-Keyed source db db' h keyed =
    elim (Bool-cases (any (λ row. same_path row source) db.source_files)) [
      | inl known ↦
          let sources = map (upserted source) db.source_files in
          let e : ok (record db { source_files = sources }) ≡ ok db' = rw known at h in
          let e' : record db { source_files = sources } ≡ db' = cc in
          KeepsKey-Keyed (upserted source) (upserted-KeepsKey source) db db'
            (ap (λ (d : Database). d.source_files) (sym e')) keyed
      | inr new ↦
          let (unbroken, e) = unless-ok _ _ db' (rw new at h) in
          let free : any (λ (row : SourceFile). row.id == source.id) db.source_files ≡ false =
            ground (arith, unbroken) in
          added-Keyed source (record source { size_bytes = min source.size_bytes i64_max }) db db'
            refl refl refl new free (ap (λ (d : Database). d.source_files) (sym e)) keyed
    ]
