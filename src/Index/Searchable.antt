-- ===== src/Index/Searchable.antt =====
-- Processing a document keeps the search rows to the current revisions of active sources.
use omni_sem.Base.{
  ℕ, ◌≡◌, refl, sym, subst, ◌∙◌, ◌⊎◌, inl, inr, true, false, Option, none, some, Text, codes,
  if◌then◌else◌, Bool-cases, In, All, All-imp, All-of_In, is_some,
}
use omni_sem.Domain.{SourceState, active, Result, ok, err}
use omni_sem.Domain.Records.{Root, DiscoveredDocument, SourceFile, Revision}
use omni_sem.Parsing.Registry.{DocumentParser, ParserRegistry, ParsedDocument, ParseError, select}
use omni_sem.Storage.{Database, same_path, find_source_file}
use omni_sem.Storage.Promotion.{Searchable}
use omni_sem.Storage.Search.{promote_revision-Searchable}
use omni_sem.Storage.Untouched.{insert_revision-Searchable}
use omni_sem.Storage.Upsert.{
  Keyed, Continues, upsert_source_file-Searchable, find_source_file-cases, same_path_join,
}
use omni_sem.Index.Preserved.{after-Holds, promotion-Holds}
use omni_sem.Index.{
  internal, Context, Processed, StableFileBytes, current_of, previous_of, is_unchanged,
  source_id_of, seen_source, failed_revision, record_parse_failure, refresh, index_parsed,
  indexed_revision, make_segments, process_with, process_document,
}

abbrev IsSearchable : Processed → Type 0
IsSearchable p = Searchable p.0

-- What `find_source_file` gave for the place of a document.
data Found (db : Database) (place : SourceFile) : Option SourceFile → Type 0 where
  absent : All (λ s. same_path s place ≡ false) db.source_files → Found db place none
  present :
      (s : SourceFile) → In s db.source_files → same_path s place ≡ true → Found db place (some s)

Continues-same : (source s t : SourceFile) → s ≡ t → Continues source t → Continues source s
Continues-same source s t e c = subst (λ r. Continues source r) (sym e) c

module _ (context : Context) (root : Root) (document : DiscoveredDocument) (db : Database)
    (keyed : Keyed db) (searchable : Searchable db) where
  abbrev seen : Option SourceFile → ℕ → ℕ → SourceState → SourceFile
  seen existing = seen_source context root document existing

  seen-Continues :
      (existing : Option SourceFile) (size modified : ℕ) (state : SourceState)
      → Found db (seen existing size modified state) existing
      → (state ≡ active) ⊎ (current_of existing ≡ none)
      → All
          (λ s.
            (same_path s (seen existing size modified state) ≡ false)
            ⊎ Continues (seen existing size modified state) s)
          db.source_files
  unfolding seen_source source_id_of current_of
  seen-Continues none size modified state (absent none_there) ready =
      All-imp (λ s other. inl other) db.source_files none_there
  seen-Continues (some t) size modified state (present _ m place) ready =
      All-of_In _ db.source_files (λ s m'.
        elim (Bool-cases (same_path s (seen (some t) size modified state))) [
          | inr other ↦ inl other
          | inl same ↦
              let equal : s ≡ t =
                keyed s t m' m
                  (inl (same_path_join s t (seen (some t) size modified state) same place)) in
              inr (Continues-same (seen (some t) size modified state) s t equal (refl, refl, ready))
        ])

  record_parse_failure-Searchable :
      (existing : Option SourceFile) (content_hash : Text) (parser : DocumentParser)
      (error : ParseError)
      → ((size modified : ℕ) (state : SourceState)
          → Found db (seen existing size modified state) existing)
      → Searchable
          (record_parse_failure context root document existing db content_hash parser error).0
  unfolding record_parse_failure
  record_parse_failure-Searchable existing content_hash parser error found =
      after-Holds Searchable db _ _ searchable (λ db' e.
        let size = document.size_bytes in
        let modified = document.modified_at in
        let state = if is_some (current_of existing) then active else SourceState.error in
        let (kept, agrees) =
          upsert_source_file-Searchable (seen existing size modified state) db db' keyed
            (seen-Continues existing size modified state (found size modified state)
              (state_ready (current_of existing)))
            searchable e in
        after-Holds Searchable db' _ _ kept (λ db'' e'.
          insert_revision-Searchable
            (failed_revision context root document existing content_hash parser error) db' db'' kept
            e'))
    where
      state_ready :
          (current : Option ℕ)
          → ((if is_some current then active else SourceState.error) ≡ active) ⊎ (current ≡ none)
      state_ready none = inr refl
      state_ready (some id) = inl refl

  index_parsed-Searchable :
      (existing : Option SourceFile) (previous : Option Revision) (stable : StableFileBytes)
      (parser : DocumentParser) (parsed : ParsedDocument)
      → ((size modified : ℕ) (state : SourceState)
          → Found db (seen existing size modified state) existing)
      → Searchable (index_parsed context root document existing db previous stable parser parsed).0
  unfolding index_parsed seen_source indexed_revision
  index_parsed-Searchable existing previous stable parser parsed found =
      after-Holds Searchable db _ _ searchable (λ db' e.
        let size = stable.size_bytes in
        let modified = stable.modified_at in
        let source = seen existing size modified active in
        let hash = context.hash_bytes stable.bytes in
        let revision = indexed_revision context root document existing hash parser parsed in
        let segments = make_segments context revision.id 0 parsed.segments in
        let (kept, agrees) =
          upsert_source_file-Searchable source db db' keyed
            (seen-Continues existing size modified active (found size modified active) (inl refl))
            searchable e in
        promotion-Holds Searchable source revision segments db' _ kept (λ db'' e'.
          (promote_revision-Searchable source revision segments db' db'' refl agrees kept e').0))

  refresh-Searchable :
      (existing : Option SourceFile) (stable : StableFileBytes)
      → ((size modified : ℕ) (state : SourceState)
          → Found db (seen existing size modified state) existing)
      → Searchable (refresh context root document existing db stable).0
  unfolding refresh same_path
  refresh-Searchable none stable found = searchable
  refresh-Searchable (some t) stable found = after-Holds Searchable db _ _ searchable (λ db' e.
      (upsert_source_file-Searchable (refreshed t) db db' keyed
        (All-of_In _ db.source_files (λ s m'. elim (Bool-cases (same_path s t)) [
          | inr other ↦ inl other
          | inl same ↦ inr (
              Continues-same (refreshed t) s t (row s m' same (found 0 0 active))
                (refl, refl, inl refl))
        ]))
        searchable e).0)
    where
      refreshed : SourceFile → SourceFile
      refreshed source = record source {
        size_bytes = stable.size_bytes;
        modified_at = some stable.modified_at;
        last_seen_at = context.now;
        state = active;
        canonical_path_hash = context.hash_path document.canonical_path;
      }

      row :
          (s : SourceFile)
          → In s db.source_files
          → same_path s t ≡ true
          → Found db (seen (some t) 0 0 active) (some t)
          → s ≡ t
      row s m' same (present _ m place) = keyed s t m' m (inl same)

  process_with-Searchable :
      (existing : Option SourceFile) (stable : StableFileBytes) (parser : DocumentParser)
      → ((size modified : ℕ) (state : SourceState)
          → Found db (seen existing size modified state) existing)
      → Searchable (process_with context root document existing db stable parser).0
  unfolding process_with
  process_with-Searchable existing stable parser found =
      let hash = context.hash_bytes stable.bytes in
      let previous = previous_of db existing in
      elim (Bool-cases (is_unchanged previous hash parser)) [
        | inl same ↦ rw same (refresh-Searchable existing stable found)
        | inr changed ↦
            rw changed
              (elim (parser.parse document stable.bytes)
                as (λ r. IsSearchable (elim r [
                  | err error ↦
                      record_parse_failure context root document existing db hash parser error
                  | ok parsed ↦
                      index_parsed context root document existing db previous stable parser parsed
                ])) [
                  | err error ↦ record_parse_failure-Searchable existing hash parser error found
                  | ok parsed ↦ index_parsed-Searchable existing previous stable parser parsed found
                ])
      ]

  Found-in :
      (existing : Option SourceFile)
      → find_source_file db.source_files root.id document.relative_path ≡ existing
      → (size modified : ℕ) (state : SourceState)
      → Found db (seen existing size modified state) existing
  unfolding seen_source
  Found-in none e size modified state =
      elim (find_source_file-cases db.source_files (seen none size modified state)) [
        | inl (missing, rest) ↦ absent rest
        | inr (s, found, m, place) ↦ let clash : none ≡ some s = sym e ∙ found in absurd cc
      ]
  Found-in (some t) e size modified state =
      elim (find_source_file-cases db.source_files (seen (some t) size modified state)) [
        | inl (missing, rest) ↦ let clash : none ≡ some t = sym missing ∙ e in absurd cc
        | inr (s, found, m, place) ↦
            let same : some s ≡ some t = sym found ∙ e in
            let same' : s ≡ t = cc in
            present t (subst (λ r. In r db.source_files) same' m)
              (subst (λ r. same_path r (seen (some t) size modified state) ≡ true) same' place)
      ]

  -- In a database with one row for an identifier and for a place, where every search row belongs to the
  -- current revision of an active source, processing a document keeps that so, whatever the
  -- document, its bytes and the parsers, and whether or not it succeeds.
  pub process_document-Searchable :
      (registry : ParserRegistry) (stable : Result Text StableFileBytes)
      → Searchable (process_document context root document registry stable db).0
  unfolding process_document
  process_document-Searchable registry (err message) = searchable
  process_document-Searchable registry (ok stable) =
      elim (select document registry)
        as (λ o. IsSearchable (elim o [
          | none ↦ (db, err (internal (codes "no parser selected for discovered document")))
          | some parser ↦
              process_with context root document
                (find_source_file db.source_files root.id document.relative_path) db stable parser
        ])) [
          | none ↦ searchable
          | some parser ↦
              process_with-Searchable
                (find_source_file db.source_files root.id document.relative_path) stable parser
                (Found-in (find_source_file db.source_files root.id document.relative_path) refl)
        ]
