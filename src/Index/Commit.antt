-- ===== src/Index/Commit.antt =====
-- A document is indexed as a whole or not at all.
use omni_sem.Base.{
  ◌≡◌, refl, sym, ap, subst, ◌∙◌, ◌⊎◌, inl, inr, Option, none, some, ◌++◌, map, Text, codes,
  Bool-cases, Option-cases, length, to_u32,
}
use omni_sem.Domain.{Result, ok, err, active, Result-cases}
use omni_sem.Domain.Records.{Root, DiscoveredDocument, SourceFile}
use omni_sem.Parsing.Registry.{DocumentParser, ParserRegistry, ParsedDocument, ParseError, select}
use omni_sem.Storage.{Database, Outcome, find_source_file, delete_fts, fts_row}
use omni_sem.Storage.Search.{promote_revision-cases, promote_revision-Promotes}
use omni_sem.Storage.Untouched.{
  SameText, SameText-trans, upsert_source_file-SameText, insert_revision-SameText,
}
use omni_sem.Index.{
  IndexError, storage, internal, Context, Processed, StableFileBytes, unchanged, outcome, after,
  after_transaction, record_parse_failure, refresh, index_parsed, process_with, process_document,
  is_unchanged, previous_of, current_of, seen_source, indexed_revision, make_segments,
}

-- The texts are as they were, and the result is an error or "unchanged".
pub record IsKept (first : Database) (p : Processed) : Type 0 where
  pub same : SameText first p.0
  pub says : (p.1 ≡ ok unchanged) ⊎ ((e : IndexError) × (p.1 ≡ err e))

module _ (context : Context) (root : Root) (document : DiscoveredDocument) (first : Database)
    (existing : Option SourceFile) (stable : StableFileBytes) (registry : ParserRegistry) where
  -- All segments of what the parser made of the bytes are stored after the others, their search rows
  -- follow those that are not of the previous revision, and the result counts them.
  pub record IsReplaced (p : Processed) : Type 0 where
    pub parser : DocumentParser
    pub parsed : ParsedDocument
    pub chosen : select document registry ≡ some parser
    pub parses : parser.parse document stable.bytes ≡ ok parsed
    pub texts :
        p.0.segments
        ≡ first.segments ++ make_segments context context.new_revision_id 0 parsed.segments
    pub fts :
        p.0.segments_fts
        ≡ delete_fts (current_of existing) first.segments_fts
          ++ map
              (fts_row
                (seen_source context root document existing stable.size_bytes stable.modified_at
                  active)
                (indexed_revision context root document existing
                  (context.hash_bytes stable.bytes)
                  parser
                  parsed))
              (make_segments context context.new_revision_id 0 parsed.segments)
    pub says :
        p.1
        ≡ ok (
            outcome context root document existing
              (previous_of first existing)
              (to_u32 (length (make_segments context context.new_revision_id 0 parsed.segments))))

  abbrev pub AllOrNothing : Processed → Type 0
  AllOrNothing p = IsKept first p ⊎ IsReplaced p

after-AllOrNothing :
    (context : Context) (root : Root) (document : DiscoveredDocument) (first : Database)
    (existing : Option SourceFile) (stable : StableFileBytes) (registry : ParserRegistry)
    (db : Database) (o : Outcome) (next : Database → Processed)
    → SameText first db
    → ((db' : Database)
        → o ≡ ok db'
        → AllOrNothing context root document first existing stable registry (next db'))
    → AllOrNothing context root document first existing stable registry (after db o next)
unfolding after
after-AllOrNothing context root document first existing stable registry db (ok db') next same f =
    f db' refl
after-AllOrNothing context root document first existing stable registry db (err e) next same f =
    inl record { same = same; says = inr (storage e, refl) }

module _ (context : Context) (root : Root) (document : DiscoveredDocument) (db : Database)
    (existing : Option SourceFile) (stable : StableFileBytes) (registry : ParserRegistry) where
  abbrev pub Whole : Processed → Type 0
  Whole = AllOrNothing context root document db existing stable registry

  record_parse_failure-AllOrNothing :
      (content_hash : Text) (parser : DocumentParser) (error : ParseError)
      → Whole (record_parse_failure context root document existing db content_hash parser error)
  unfolding record_parse_failure
  record_parse_failure-AllOrNothing content_hash parser error =
      after-AllOrNothing context root document db existing stable registry db _ _ (refl, refl)
        (λ db' e.
          let kept = (upsert_source_file-SameText _ db db' e).0 in
          after-AllOrNothing context root document db existing stable registry db' _ _ kept
            (λ db'' e'. inl record {
              same = SameText-trans db db' db'' kept (insert_revision-SameText _ db' db'' e');
              says = inr (_, refl);
            }))

  index_parsed-AllOrNothing :
      (parser : DocumentParser) (parsed : ParsedDocument)
      → select document registry ≡ some parser
      → parser.parse document stable.bytes ≡ ok parsed
      → Whole (
          index_parsed context root document existing db
            (previous_of db existing)
            stable
            parser
            parsed)
  unfolding index_parsed after_transaction indexed_revision seen_source current_of
  index_parsed-AllOrNothing parser parsed chosen parses =
      let source =
        seen_source context root document existing stable.size_bytes stable.modified_at active in
      let revision =
        indexed_revision context root document existing (context.hash_bytes stable.bytes) parser
          parsed in
      let segments = make_segments context revision.id 0 parsed.segments in
      after-AllOrNothing context root document db existing stable registry db _ _ (refl, refl)
        (λ db' e.
          let (texts, fts) = (upsert_source_file-SameText source db db' e).0 in
          elim (promote_revision-cases source revision segments db') [
            | inr (error, failed) ↦
                rw failed (inl record { same = (texts, fts); says = inr (storage error, refl) })
            | inl (db'', done) ↦
                let p = promote_revision-Promotes source revision segments db' db'' done in
                rw done (
                  inr record {
                    parser = parser;
                    parsed = parsed;
                    chosen = chosen;
                    parses = parses;
                    texts = p.texts ∙ ap (λ l. l ++ segments) texts;
                    fts =
                        p.fts
                        ∙ ap
                            (λ l.
                              delete_fts (current_of existing) l
                              ++ map (fts_row source revision) segments)
                            fts;
                    says = refl;
                  })
          ])

  refresh-AllOrNothing : Whole (refresh context root document existing db stable)
  unfolding refresh
  refresh-AllOrNothing =
      elim existing
        as (λ found.
          AllOrNothing context root document db existing stable registry
            (refresh context root document found db stable)) [
              | none ↦ inl record { same = (refl, refl); says = inr (_, refl) }
              | some source ↦
                  after-AllOrNothing context root document db existing stable registry db _ _
                    (refl, refl)
                    (λ db' e.
                      inl record {
                        same = (upsert_source_file-SameText _ db db' e).0;
                        says = inl refl;
                      })
            ]

  process_with-AllOrNothing :
      (parser : DocumentParser)
      → select document registry ≡ some parser
      → Whole (process_with context root document existing db stable parser)
  unfolding process_with
  process_with-AllOrNothing parser chosen =
      let hash = context.hash_bytes stable.bytes in
      let previous = previous_of db existing in
      elim (Bool-cases (is_unchanged previous hash parser)) [
        | inl same ↦ rw same refresh-AllOrNothing
        | inr changed ↦ elim (Result-cases (parser.parse document stable.bytes)) [
          | inl (error, fails) ↦
              rw (changed, fails) (record_parse_failure-AllOrNothing hash parser error)
          | inr (parsed, parses) ↦
              rw (changed, parses) (index_parsed-AllOrNothing parser parsed chosen parses)
        ]
      ]

-- Whatever the document, its bytes, the parsers and the database, processing a document leaves every
-- segment and every search row as it was, with an error or "unchanged" as the result, or replaces
-- them as a whole: the segments that the selected parser made of the bytes that were read are all
-- stored after the others, the search rows are those not of the previous revision and then one for
-- each such segment, and the result is an addition or a modification with their number.
pub process_document-AllOrNothing :
    (context : Context) (root : Root) (document : DiscoveredDocument) (db : Database)
    (registry : ParserRegistry) (bytes : Result Text StableFileBytes)
    → IsKept db (process_document context root document registry bytes db)
      ⊎ ((stable : StableFileBytes) × (bytes ≡ ok stable)
          × IsReplaced context root document db
              (find_source_file db.source_files root.id document.relative_path)
              stable
              registry
              (process_document context root document registry bytes db))
unfolding process_document
process_document-AllOrNothing context root document db registry (err message) =
    inl record { same = (refl, refl); says = inr (_, refl) }
process_document-AllOrNothing context root document db registry (ok stable) =
    elim (Option-cases (select document registry)) [
      | inl unsupported ↦
          let fails : process_document context root document registry (ok stable) db
              ≡ (db, err (internal (codes "no parser selected for discovered document"))) =
            rw (process_document, unsupported) refl in
          inl (subst (IsKept db) (sym fails) (record { same = (refl, refl); says = inr (_, refl) }))
      | inr (parser, chosen) ↦
          let existing = find_source_file db.source_files root.id document.relative_path in
          let given : Result Text StableFileBytes = ok stable in
          let same : process_document context root document registry (ok stable) db
              ≡ process_with context root document existing db stable parser =
            rw (process_document, chosen) refl in
          subst
            (λ p.
              IsKept db p
              ⊎ ((bytes : StableFileBytes) × (given ≡ ok bytes)
                  × IsReplaced context root document db existing bytes registry p))
            (sym same)
            (elim (process_with-AllOrNothing context root document db existing stable registry
              parser chosen) [ inl kept ↦ inl kept | inr replaced ↦ inr (stable, refl, replaced) ])
    ]
