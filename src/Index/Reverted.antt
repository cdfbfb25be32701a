-- ===== src/Index/Reverted.antt =====
-- A document whose content, in whole, was indexed before under another current revision.
use omni_sem.Base.{ℕ, ◌≡◌, refl, sym, subst, false, Option, some, List, Text, In}
use omni_sem.Domain.{ok, err, active}
use omni_sem.Domain.Records.{Root, DiscoveredDocument, SourceFile, Revision}
use omni_sem.Parsing.Registry.{DocumentParser, ParserRegistry, ParsedDocument, select}
use omni_sem.Storage.{constraint, Database, Outcome, find_source_file}
use omni_sem.Storage.Search.{promote_revision-repeated}
use omni_sem.Storage.Untouched.{upsert_source_file-SameText, same_content_of}
use omni_sem.Index.{
  storage, Context, Processed, StableFileBytes, after, after_transaction, index_parsed,
  indexed_revision, process_with, process_document, is_unchanged, previous_of, make_segments,
  seen_source, source_id_of,
}

after-constraint :
    (db : Database) (o : Outcome) (next : Database → Processed)
    → ((db' : Database) → o ≡ ok db' → (next db').1 ≡ err (storage constraint))
    → (after db o next).1 ≡ err (storage constraint)
unfolding after
after-constraint db (ok db') next f = f db' refl
after-constraint db (err constraint) next f = refl

-- A stored revision of the document's source with this content, parser and version.
abbrev pub HasRevision : Database → ℕ → Text → DocumentParser → Type 0
HasRevision db source_id content_hash parser =
    (r : Revision) × In r db.revisions
    × (r.source_file_id ≡ source_id)
    × (r.content_hash ≡ content_hash)
    × (r.parser_id ≡ parser.parser_id)
    × (r.parser_version ≡ parser.parser_version)

module _ (context : Context) (root : Root) (document : DiscoveredDocument) (db : Database) where
  index_parsed-reverted :
      (existing : Option SourceFile) (previous : Option Revision) (stable : StableFileBytes)
      (parser : DocumentParser) (parsed : ParsedDocument)
      → HasRevision db (source_id_of context existing) (context.hash_bytes stable.bytes) parser
      → (index_parsed context root document existing db previous stable parser parsed).1
        ≡ err (storage constraint)
  unfolding index_parsed after after_transaction indexed_revision
  index_parsed-reverted existing previous stable parser parsed (r, m, own, content, id, version) =
      let hash = context.hash_bytes stable.bytes in
      let revision = indexed_revision context root document existing hash parser parsed in
      let segments = make_segments context revision.id 0 parsed.segments in
      let source =
        seen_source context root document existing stable.size_bytes stable.modified_at active in
      after-constraint db _ _ (λ db' e.
        let same = (upsert_source_file-SameText source db db' e).1 in
        let repeated =
          promote_revision-repeated source revision r segments db'
            (subst (λ (l : List Revision). In r l) (sym same) m)
            (same_content_of revision r (sym own) (sym content) (sym id) (sym version)) in
        rw repeated refl)

  process_with-reverted :
      (stable : StableFileBytes) (source : SourceFile) (parser : DocumentParser)
      (parsed : ParsedDocument)
      → parser.parse document stable.bytes ≡ ok parsed
      → is_unchanged (previous_of db (some source)) (context.hash_bytes stable.bytes) parser ≡ false
      → HasRevision db source.id (context.hash_bytes stable.bytes) parser
      → (process_with context root document (some source) db stable parser).1
        ≡ err (storage constraint)
  unfolding source_id_of process_with
  process_with-reverted stable source parser parsed parses changed earlier =
      rw (process_with, changed, parses)
        (index_parsed-reverted (some source) (previous_of db (some source)) stable parser parsed
          earlier)

  -- A document that has a source, a parser that accepts its bytes, and content that is not that of the
  -- current revision but was indexed before by the same parser, is not indexed: the result is the
  -- database's constraint error.
  pub process_document-reverted :
      (registry : ParserRegistry) (stable : StableFileBytes) (source : SourceFile)
      (parser : DocumentParser) (parsed : ParsedDocument)
      → find_source_file db.source_files root.id document.relative_path ≡ some source
      → select document registry ≡ some parser
      → parser.parse document stable.bytes ≡ ok parsed
      → is_unchanged (previous_of db (some source)) (context.hash_bytes stable.bytes) parser ≡ false
      → HasRevision db source.id (context.hash_bytes stable.bytes) parser
      → (process_document context root document registry (ok stable) db).1
        ≡ err (storage constraint)
  unfolding process_document
  process_document-reverted registry stable source parser parsed found chosen parses changed
        earlier =
      rw (process_document, chosen, found)
        (process_with-reverted stable source parser parsed parses changed earlier)
