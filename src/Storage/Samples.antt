-- ===== src/Storage/Samples.antt =====
-- Concrete rows for the examples: one source with an old and a current revision.
use omni_sem.Base.{
  refl, here, ◌≡◌, sym, ◌∙◌, inl, inr, In, In-cons, ℕ, true, false, none, some, [], ◌∷◌, Text,
  codes,
}
use omni_sem.Domain.{normal, markdown, paragraph, active}
use omni_sem.Domain.{RevisionStatus}
use omni_sem.Domain.Records.{Root, SourceFile, Revision, Segment}
use omni_sem.Storage.Promotion.{Searchable}
use omni_sem.Storage.Upsert.{Keyed}
use omni_sem.Storage.{Database, FtsRow, fts_row}

abbrev pub root : Root
root = record {
  id = 1;
  canonical_path = [];
  display_name = codes "notes";
  include_patterns = [];
  exclude_patterns = [];
  sensitivity_tags = [];
  follow_symlinks = false;
  enabled = true;
  created_at = 0;
  updated_at = 0;
  config_fingerprint = [];
}

abbrev pub source : SourceFile
source = record {
  id = 1;
  root_id = 1;
  relative_path = normal (codes "a.md") ∷ [];
  canonical_path_hash = codes "p";
  file_type = markdown;
  size_bytes = 3;
  modified_at = some 5;
  current_revision_id = some 11;
  state = active;
  first_seen_at = 1;
  last_seen_at = 5;
}

abbrev pub revision : ℕ → Text → Revision
revision id content_hash = record {
  id = id;
  source_file_id = 1;
  content_hash = content_hash;
  parser_id = codes "markdown-v1";
  parser_version = codes "1";
  extracted_text_hash = none;
  observed_at = 5;
  indexed_at = some 5;
  status = RevisionStatus.indexed;
  error_code = none;
  error_message = none;
}

abbrev pub segment : ℕ → ℕ → Segment
segment id revision_id = record {
  id = id;
  revision_id = revision_id;
  segment_type = paragraph;
  anchor = codes "text:1";
  ordinal = 0;
  text = codes "abc";
  text_hash = codes "t";
  token_count = none;
  sensitivity_scope = none;
}

abbrev pub old_row : FtsRow
old_row = fts_row source (revision 11 (codes "g")) (segment 101 11)

abbrev pub stored : Database
stored = record {
  roots = root ∷ [];
  source_files = source ∷ [];
  revisions = revision 10 (codes "h") ∷ revision 11 (codes "g") ∷ [];
  segments = segment 100 10 ∷ segment 101 11 ∷ [];
  segments_fts = old_row ∷ [];
  scan_runs = [];
}

pub stored-Searchable : Searchable stored
unfolding fts_row
stored-Searchable = ((source, here, refl, refl, refl), tt)

pub stored-Keyed : Keyed stored
stored-Keyed s t m n h = only s m ∙ sym (only t n)
  where
    only : (r : SourceFile) → In r stored.source_files → r ≡ source
    only r k = elim (In-cons k) [ inl e ↦ e | inr later ↦ elim later [ ] ]
