-- ===== src/Index/Examples.antt =====
-- A document that returns to the content of its first revision.
use omni_sem.Base.{◌⊎◌, ◌≡◌, refl, true, false, none, some, [], ◌∷◌, Text, codes, here, text_eq}
use omni_sem.Domain.{Result, normal, markdown, ok, err}
use omni_sem.Domain.Records.{DiscoveredDocument}
use omni_sem.Parsing.Registry.{DocumentParser, ParsedDocument, select}
use omni_sem.Storage.{constraint, find_source_file, get_revision}
use omni_sem.Storage.Samples.{stored-Searchable, stored-Keyed, root, source, revision, stored}
use omni_sem.Retrieval.Sensitivity.{match_text, join_slash, components_text, component_text}
use omni_sem.Index.{
  storage, Context, StableFileBytes, process_document, is_unchanged, previous_of, current_of,
}
use omni_sem.Storage.Promotion.{Searchable}
use omni_sem.Index.Searchable.{process_document-Searchable}
use omni_sem.Index.Commit.{IsKept, IsReplaced, process_document-AllOrNothing}
use omni_sem.Index.Reverted.{HasRevision, process_document-reverted}

-- The hash of bytes is the bytes.
abbrev context : Context
context = record {
  now = 9;
  new_source_id = 2;
  new_revision_id = 12;
  new_segment_id = λ n. n;
  hash_bytes = λ bytes. bytes;
  hash_text = λ text. text;
  hash_path = λ path. [];
}

abbrev document : DiscoveredDocument
document = record {
  root_id = 1;
  canonical_path = [];
  relative_path = normal (codes "a.md") ∷ [];
  size_bytes = 1;
  modified_at = 8;
  file_type = markdown;
}

abbrev nothing_parsed : ParsedDocument
nothing_parsed = record { title = none; segments = []; warnings = [] }

abbrev parser : DocumentParser
parser = record {
  parser_id = codes "markdown-v1";
  parser_version = codes "1";
  supports = λ d. true;
  parse = λ d bytes. ok nothing_parsed;
}

abbrev stable : StableFileBytes
stable = record { bytes = codes "h"; size_bytes = 1; modified_at = 8 }

found : find_source_file stored.source_files root.id document.relative_path ≡ some source
unfolding find_source_file match_text join_slash components_text component_text text_eq
found = refl

chosen : select document (parser ∷ []) ≡ some parser
unfolding select
chosen = refl

changed : is_unchanged (previous_of stored (some source)) (codes "h") parser ≡ false
unfolding is_unchanged previous_of current_of get_revision text_eq
changed = refl

indexed_before : HasRevision stored source.id (codes "h") parser
indexed_before = (revision 10 (codes "h"), here, refl, refl, refl, refl)

process_document-reverted_example :
    (process_document context root document (parser ∷ []) (ok stable) stored).1
    ≡ err (storage constraint)
process_document-reverted_example =
    process_document-reverted context root document stored (parser ∷ []) stable source parser
      nothing_parsed found chosen refl changed indexed_before

abbrev read_bytes : Result Text StableFileBytes
read_bytes = ok stable

process_document-AllOrNothing_example :
    IsKept stored (process_document context root document (parser ∷ []) read_bytes stored)
    ⊎ ((bytes : StableFileBytes) × (read_bytes ≡ ok bytes)
        × IsReplaced context root document stored
            (find_source_file stored.source_files root.id document.relative_path)
            bytes
            (parser ∷ [])
            (process_document context root document (parser ∷ []) read_bytes stored))
process_document-AllOrNothing_example =
    process_document-AllOrNothing context root document stored (parser ∷ []) read_bytes

process_document-Searchable_example :
    Searchable (process_document context root document (parser ∷ []) (ok stable) stored).0
process_document-Searchable_example =
    process_document-Searchable context root document stored stored-Keyed stored-Searchable
      (parser ∷ []) (ok stable)
