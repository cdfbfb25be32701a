-- ===== src/Storage/Untouched.antt =====
-- The statements that leave the segments and the search rows as they are.
use omni_sem.Base.{
  subst, ◌≡◌, refl, sym, ap, ◌∙◌, inl, inr, true, List, map, any, ==_iff, text_eq_iff, Bool-cases,
}
use omni_sem.Domain.{ok}
use omni_sem.Domain.Records.{SourceFile, Revision}
use omni_sem.Storage.{
  Database, same_content, same_path, upserted, insert_revision, upsert_source_file,
}
use omni_sem.Storage.Promotion.{unless-ok, Searchable}

-- The segments and the search rows are those of the first database.
abbrev pub SameText : Database → Database → Type 0
SameText db db' = (db'.segments ≡ db.segments) × (db'.segments_fts ≡ db.segments_fts)

pub SameText-trans : (a b c : Database) → SameText a b → SameText b c → SameText a c
SameText-trans a b c (p, q) (r, s) = (r ∙ p, s ∙ q)

pub upsert_source_file-SameText :
    (source : SourceFile) (db db' : Database)
    → upsert_source_file source db ≡ ok db'
    → SameText db db' × (db'.revisions ≡ db.revisions)
unfolding upsert_source_file
upsert_source_file-SameText source db db' h =
    elim (Bool-cases (any (λ row. same_path row source) db.source_files)) [
      | inl known ↦
          let sources = map (upserted source) db.source_files in
          let e : ok (record db { source_files = sources }) ≡ ok db' = rw known at h in
          fields sources db' cc
      | inr new ↦ let (unbroken, e) = unless-ok _ _ db' (rw new at h) in fields _ db' e
    ]
  where
    fields :
        (sources : List SourceFile) (after : Database)
        → record db { source_files = sources } ≡ after
        → SameText db after × (after.revisions ≡ db.revisions)
    fields sources after e = (
      (ap (λ (d : Database). d.segments) (sym e), ap (λ (d : Database). d.segments_fts) (sym e)),
      ap (λ (d : Database). d.revisions) (sym e),
    )

pub insert_revision-SameText :
    (r : Revision) (db db' : Database) → insert_revision r db ≡ ok db' → SameText db db'
unfolding insert_revision
insert_revision-SameText r db db' h =
    let (unbroken, e) = unless-ok _ _ db' h in
    (ap (λ (d : Database). d.segments) (sym e), ap (λ (d : Database). d.segments_fts) (sym e))

pub same_content_of :
    (r s : Revision)
    → r.source_file_id ≡ s.source_file_id
    → r.content_hash ≡ s.content_hash
    → r.parser_id ≡ s.parser_id
    → r.parser_version ≡ s.parser_version
    → same_content r s ≡ true
unfolding same_content
same_content_of r s a b c d =
    rw
      (
        (==_iff r.source_file_id s.source_file_id).1 a,
        (text_eq_iff r.content_hash s.content_hash).1 b,
        (text_eq_iff r.parser_id s.parser_id).1 c,
        (text_eq_iff r.parser_version s.parser_version).1 d,
      )
      refl

pub insert_revision-Searchable :
    (r : Revision) (db db' : Database)
    → Searchable db
    → insert_revision r db ≡ ok db'
    → Searchable db'
unfolding insert_revision
insert_revision-Searchable r db db' kept h =
    let (unbroken, e) = unless-ok _ _ db' h in subst (λ (d : Database). Searchable d) e kept
