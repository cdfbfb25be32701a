-- ===== src/Index/Preserved.antt =====
-- What the statements of `process_document` keep, processing a document keeps.
use omni_sem.Base.{◌≡◌, refl, Option, none, some, List, Text, codes, Bool-cases, inl, inr}
use omni_sem.Domain.{Result, ok, err}
use omni_sem.Domain.Records.{Root, DiscoveredDocument, SourceFile, Revision, Segment}
use omni_sem.Parsing.Registry.{DocumentParser, ParserRegistry, ParsedDocument, ParseError, select}
use omni_sem.Storage.{
  Database, Outcome, find_source_file, upsert_source_file, insert_revision, promote_revision,
}
use omni_sem.Storage.Search.{promote_revision-cases}
use omni_sem.Index.{
  internal, Context, Processed, StableFileBytes, after, previous_of, is_unchanged,
  record_parse_failure, refresh, index_parsed, process_with, process_document, after_transaction,
}

-- A statement that fails leaves the database, and what follows one that succeeds is what counts.
pub after-Holds :
    (P : Database → Type 0) (db : Database) (o : Outcome) (next : Database → Processed)
    → P db
    → ((db' : Database) → o ≡ ok db' → P (next db').0)
    → P (after db o next).0
unfolding after
after-Holds P db (ok db') next kept f = f db' refl
after-Holds P db (err e) next kept f = kept

abbrev HoldsAt : (Database → Type 0) → Processed → Type 0
HoldsAt P p = P p.0

-- A transaction that fails leaves the database.
pub promotion-Holds :
    (P : Database → Type 0) (source : SourceFile) (revision : Revision) (segments : List Segment)
    (db : Database) (next : Database → Processed)
    → P db
    → ((db' : Database)
        → promote_revision source revision segments db ≡ (db', none)
        → P (next db').0)
    → P (after_transaction (promote_revision source revision segments db) next).0
unfolding after_transaction
promotion-Holds P source revision segments db next kept f =
    elim (promote_revision-cases source revision segments db) [
      | inl (db', done) ↦ rw done (f db' done)
      | inr (e, failed) ↦ rw failed kept
    ]

-- What the statements of indexing keep.
pub record Preserved (P : Database → Type 0) : Type 0 where
  pub upserts :
      (source : SourceFile) (db db' : Database)
      → upsert_source_file source db ≡ ok db'
      → P db
      → P db'
  pub inserts : (r : Revision) (db db' : Database) → insert_revision r db ≡ ok db' → P db → P db'
  pub promotes :
      (source : SourceFile) (revision : Revision) (segments : List Segment) (db db' : Database)
      → promote_revision source revision segments db ≡ (db', none)
      → P db
      → P db'

module _ (P : Database → Type 0) (preserved : Preserved P) (context : Context) (root : Root)
    (document : DiscoveredDocument) (db : Database) (kept : P db) where
  record_parse_failure-Preserved :
      (existing : Option SourceFile) (content_hash : Text) (parser : DocumentParser)
      (error : ParseError)
      → P (record_parse_failure context root document existing db content_hash parser error).0
  unfolding record_parse_failure
  record_parse_failure-Preserved existing content_hash parser error =
      after-Holds P db _ _ kept (λ db' e.
        let kept' = preserved.upserts _ db db' e kept in
        after-Holds P db' _ _ kept' (λ db'' e'. preserved.inserts _ db' db'' e' kept'))

  index_parsed-Preserved :
      (existing : Option SourceFile) (previous : Option Revision) (stable : StableFileBytes)
      (parser : DocumentParser) (parsed : ParsedDocument)
      → P (index_parsed context root document existing db previous stable parser parsed).0
  unfolding index_parsed
  index_parsed-Preserved existing previous stable parser parsed =
      after-Holds P db _ _ kept (λ db' e.
        let kept' = preserved.upserts _ db db' e kept in
        promotion-Holds P _ _ _ db' _ kept' (λ db'' e'. preserved.promotes _ _ _ db' db'' e' kept'))

  refresh-Preserved :
      (existing : Option SourceFile) (stable : StableFileBytes)
      → P (refresh context root document existing db stable).0
  unfolding refresh
  refresh-Preserved none stable = kept
  refresh-Preserved (some source) stable =
      after-Holds P db _ _ kept (λ db' e. preserved.upserts _ db db' e kept)

  process_with-Preserved :
      (existing : Option SourceFile) (stable : StableFileBytes) (parser : DocumentParser)
      → P (process_with context root document existing db stable parser).0
  unfolding process_with
  process_with-Preserved existing stable parser =
      let hash = context.hash_bytes stable.bytes in
      let previous = previous_of db existing in
      elim (Bool-cases (is_unchanged previous hash parser)) [
        | inl same ↦ rw same (refresh-Preserved existing stable)
        | inr changed ↦
            rw changed
              (elim (parser.parse document stable.bytes)
                as (λ r. HoldsAt P (elim r [
                  | err error ↦
                      record_parse_failure context root document existing db hash parser error
                  | ok parsed ↦
                      index_parsed context root document existing db previous stable parser parsed
                ])) [
                  | err error ↦ record_parse_failure-Preserved existing hash parser error
                  | ok parsed ↦ index_parsed-Preserved existing previous stable parser parsed
                ])
      ]

  pub process_document-Preserved :
      (registry : ParserRegistry) (bytes : Result Text StableFileBytes)
      → P (process_document context root document registry bytes db).0
  unfolding process_document
  process_document-Preserved registry (err message) = kept
  process_document-Preserved registry (ok stable) =
      let existing = find_source_file db.source_files root.id document.relative_path in
      elim (select document registry)
        as (λ chosen. HoldsAt P (elim chosen [
          | none ↦ (db, err (internal (codes "no parser selected for discovered document")))
          | some parser ↦ process_with context root document existing db stable parser
        ])) [ none ↦ kept | some parser ↦ process_with-Preserved existing stable parser ]
