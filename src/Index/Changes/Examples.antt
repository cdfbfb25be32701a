-- ===== src/Index/Changes/Examples.antt =====
-- One note is deleted, and one is changed and cannot be read.
use omni_sem.Base.{none, [], ◌∷◌, codes}
use omni_sem.Domain.{normal, ok, err}
use omni_sem.Storage.Samples.{stored, stored-Keyed, stored-Searchable}
use omni_sem.Retrieval.Sensitivity.{match_text}
use omni_sem.Discovery.Samples.{notes, todo, one_note, notes_root}
use omni_sem.Index.Scan.{ScanContext}
use omni_sem.Index.Scan.Kept.{Sound}
use omni_sem.Index.Changes.{GitChangeKind, GitPathChange, no_changes, apply_changes}
use omni_sem.Index.Changes.Kept.{apply_changes-Sound}

-- No file can be read.
abbrev scan : ScanContext
scan = record {
  started_at = ok 20;
  deleted_at = ok 21;
  completed_at = ok 22;
  list_error = none;
  mark_error = λ source. none;
  run_id = 7;
  show_id = λ id. [];
  show_path = match_text;
  context_of = λ document. record {
    now = 20;
    new_source_id = 3;
    new_revision_id = 12;
    new_segment_id = λ n. n;
    hash_bytes = λ bytes. bytes;
    hash_text = λ text. text;
    hash_path = λ path. [];
  };
  read = λ document. err (codes "gone");
}

abbrev deletion : GitPathChange
deletion = record { relative_path = normal (codes "a.md") ∷ []; kind = GitChangeKind.deleted }

abbrev change : GitPathChange
change = record { relative_path = todo; kind = GitChangeKind.modified }

apply_changes-Sound_example :
    Sound
      (apply_changes scan one_note notes_root [] notes (deletion ∷ change ∷ []) no_changes stored).0
apply_changes-Sound_example =
    apply_changes-Sound scan one_note notes_root [] notes (deletion ∷ change ∷ []) no_changes stored
      (record { keyed = stored-Keyed; searchable = stored-Searchable })
