-- ===== src/Index.antt =====
-- crates/omnisem-core/src/index.rs: `process_document`, which indexes one discovered document, and
-- `record_parse_failure`. The clock, the fresh identifiers and the hashes are parameters, and so is
-- what `read_stable_file` of io.rs returned.
pub mod Commit
pub mod Preserved
pub mod Reverted
pub mod Scan
pub mod Changes
pub mod Searchable
mod Examples
use omni_sem.Base.{
  ℕ, ◌+◌, Bool, true, false, ◌&&◌, Option, none, some, List, [], ◌∷◌, ◌++◌, Text, codes, text_eq,
  if◌then◌else◌, is_some, length, to_u32,
}
use omni_sem.Domain.{
  DomainError, Timestamp, FilePath, SourceState, active, RevisionStatus, Result, ok, err,
}
use omni_sem.Domain.Records.{Root, DiscoveredDocument, SourceFile, Revision, Segment}
use omni_sem.Parsing.{ParsedSegment}
use omni_sem.Parsing.Registry.{
  DocumentParser, ParserRegistry, ParsedDocument, ParseError, invalid_utf8, duplicate_parser,
  failed, select,
}
use omni_sem.Storage.{
  StorageError, Database, Outcome, Ran, find_source_file, get_revision, insert_revision,
  upsert_source_file, promote_revision,
}

-- io.rs: `StableFileBytes`.
pub record StableFileBytes : Type 0 where
  pub bytes : List ℕ
  pub size_bytes : ℕ
  pub modified_at : Timestamp

pub data IndexError : Type 0 where
  storage : StorageError → IndexError
  domain : DomainError → IndexError
  read : Text → IndexError
  internal : Text → IndexError

pub data DocumentOutcome : Type 0 where
  addition : ℕ → DocumentOutcome
  modification : ℕ → DocumentOutcome
  unchanged : DocumentOutcome

-- `Timestamp::now`, the fresh identifiers, `blake3_hex` of bytes and of a text, and `path_hash`.
pub record Context : Type 0 where
  pub now : Timestamp
  pub new_source_id : ℕ
  pub new_revision_id : ℕ
  pub new_segment_id : ℕ → ℕ
  pub hash_bytes : List ℕ → Text
  pub hash_text : Text → Text
  pub hash_path : FilePath → Text

abbrev pub Processed : Type 0
Processed = Database × Result IndexError DocumentOutcome

-- A statement and what follows it: `?` returns its error.
pub after : Database → Outcome → (Database → Processed) → Processed
after db (ok db') next = next db'
after db (err e) next = (db, err (storage e))

-- The same of a transaction.
pub after_transaction : Ran → (Database → Processed) → Processed
after_transaction (db, none) next = next db
after_transaction (db, some e) next = (db, err (storage e))

pub parse_error_code : ParseError → Text
parse_error_code invalid_utf8 = codes "INVALID_UTF8"
parse_error_code (duplicate_parser id) = codes "DUPLICATE_PARSER"
parse_error_code (failed message) = codes "PARSE_FAILED"

-- `ParseError`'s `to_string`.
pub parse_error_text : ParseError → Text
parse_error_text invalid_utf8 = codes "source is not valid UTF-8"
parse_error_text (duplicate_parser id) = codes "duplicate parser id: " ++ id
parse_error_text (failed message) = codes "parser failed: " ++ message

pub current_of : Option SourceFile → Option ℕ
current_of none = none
current_of (some source) = source.current_revision_id

pub previous_of : Database → Option SourceFile → Option Revision
previous_of db existing = elim (current_of existing) [
  | none ↦ none
  | some id ↦ get_revision db.revisions id
]

is_indexed : RevisionStatus → Bool
is_indexed RevisionStatus.indexed = true
is_indexed RevisionStatus.prepared = false
is_indexed RevisionStatus.failed = false

-- The current revision has this content, from this parser.
pub is_unchanged : Option Revision → Text → DocumentParser → Bool
is_unchanged none content_hash parser = false
is_unchanged (some previous) content_hash parser =
    text_eq previous.content_hash content_hash
    && text_eq previous.parser_id parser.parser_id
    && text_eq previous.parser_version parser.parser_version
    && is_indexed previous.status

pub concat_texts : List ParsedSegment → Text
concat_texts [] = []
concat_texts (item ∷ items) = item.text ++ 10 ∷ concat_texts items

module _ (context : Context) where
  pub source_id_of : Option SourceFile → ℕ
  source_id_of none = context.new_source_id
  source_id_of (some source) = source.id

  pub first_seen_of : Option SourceFile → Timestamp
  first_seen_of none = context.now
  first_seen_of (some source) = source.first_seen_at

  -- The segments of the parsed document; `n` counts the identifiers.
  pub make_segments : ℕ → ℕ → List ParsedSegment → List Segment
  make_segments revision_id n [] = []
  make_segments revision_id n (item ∷ items) =
      record {
        id = context.new_segment_id n;
        revision_id = revision_id;
        segment_type = item.segment_type;
        anchor = item.anchor;
        ordinal = item.ordinal;
        text = item.text;
        text_hash = context.hash_text item.text;
        token_count = none;
        sensitivity_scope = none;
      }
      ∷ make_segments revision_id (n + 1) items

  module _ (root : Root) (document : DiscoveredDocument) (existing : Option SourceFile) where
    -- The source row with the size, time and state that are now seen.
    pub seen_source : ℕ → Timestamp → SourceState → SourceFile
    seen_source size_bytes modified_at state = record {
      id = source_id_of existing;
      root_id = root.id;
      relative_path = document.relative_path;
      canonical_path_hash = context.hash_path document.canonical_path;
      file_type = document.file_type;
      size_bytes = size_bytes;
      modified_at = some modified_at;
      current_revision_id = current_of existing;
      state = state;
      first_seen_at = first_seen_of existing;
      last_seen_at = context.now;
    }

    pub failed_revision : Text → DocumentParser → ParseError → Revision
    failed_revision content_hash parser error = record {
      id = context.new_revision_id;
      source_file_id = source_id_of existing;
      content_hash = content_hash;
      parser_id = parser.parser_id;
      parser_version = parser.parser_version;
      extracted_text_hash = none;
      observed_at = context.now;
      indexed_at = none;
      status = RevisionStatus.failed;
      error_code = some (parse_error_code error);
      error_message = some (codes "parser failed without promoting revision");
    }

    pub record_parse_failure : Database → Text → DocumentParser → ParseError → Processed
    record_parse_failure db content_hash parser error =
        let state = if is_some (current_of existing) then active else SourceState.error in
        let source = seen_source document.size_bytes document.modified_at state in
        after db (upsert_source_file source db) (λ db'.
          after db' (insert_revision (failed_revision content_hash parser error) db')
            (λ db''. (db'', err (internal (parse_error_text error)))))

    pub indexed_revision : Text → DocumentParser → ParsedDocument → Revision
    indexed_revision content_hash parser parsed = record {
      id = context.new_revision_id;
      source_file_id = source_id_of existing;
      content_hash = content_hash;
      parser_id = parser.parser_id;
      parser_version = parser.parser_version;
      extracted_text_hash = some (context.hash_text (concat_texts parsed.segments));
      observed_at = context.now;
      indexed_at = some context.now;
      status = RevisionStatus.indexed;
      error_code = none;
      error_message = none;
    }

    pub outcome : Option Revision → ℕ → DocumentOutcome
    outcome none segments = addition segments
    outcome (some previous) segments = modification segments

    pub index_parsed :
        Database → Option Revision → StableFileBytes → DocumentParser → ParsedDocument → Processed
    index_parsed db previous stable parser parsed =
        let revision = indexed_revision (context.hash_bytes stable.bytes) parser parsed in
        let segments = make_segments revision.id 0 parsed.segments in
        let source = seen_source stable.size_bytes stable.modified_at active in
        after db (upsert_source_file source db) (λ db'.
          after_transaction (promote_revision source revision segments db')
            (λ db''. (db'', ok (outcome previous (to_u32 (length segments))))))

    -- Without a row, `expect` panics.
    pub refresh : Database → StableFileBytes → Processed
    refresh db stable = elim existing [
      | none ↦ (db, err (internal (codes "unchanged path requires existing source")))
      | some source ↦
          after db
            (upsert_source_file
              (record source {
                size_bytes = stable.size_bytes;
                modified_at = some stable.modified_at;
                last_seen_at = context.now;
                state = active;
                canonical_path_hash = context.hash_path document.canonical_path;
              })
              db)
            (λ db'. (db', ok unchanged))
    ]

    -- What follows the choice of the parser.
    pub process_with : Database → StableFileBytes → DocumentParser → Processed
    process_with db stable parser =
        let content_hash = context.hash_bytes stable.bytes in
        let previous = previous_of db existing in
        if is_unchanged previous content_hash parser
        then refresh db stable
        else elim (parser.parse document stable.bytes) [
          | err error ↦ record_parse_failure db content_hash parser error
          | ok parsed ↦ index_parsed db previous stable parser parsed
        ]

  pub process_document :
      Root
      → DiscoveredDocument
      → ParserRegistry
      → Result Text StableFileBytes
      → Database
      → Processed
  process_document root document registry (err message) db = (db, err (read message))
  process_document root document registry (ok stable) db = elim (select document registry) [
    | none ↦ (db, err (internal (codes "no parser selected for discovered document")))
    | some parser ↦
        process_with root document (find_source_file db.source_files root.id document.relative_path)
          db stable parser
  ]
