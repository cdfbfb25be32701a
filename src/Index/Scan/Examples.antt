-- ===== src/Index/Scan/Examples.antt =====
-- A scan of a root with one note, of which an earlier note is gone.
use omni_sem.Base.{
  ◌≡◌, refl, true, none, [], ◌∷◌, codes, In, here, there, text_eq, decimal, sort_by, insert_by,
  compare_text, strip_prefix, str_starts_with, join,
}
use omni_sem.Domain.{ok, err}
use omni_sem.Domain.Records.{SourceFile}
use omni_sem.Domain.Paths.{
  path_eq, same_component, strip_base, starts_with, compare_path, is_escape,
}
use omni_sem.Retrieval.Sensitivity.{match_text, join_slash, components_text, component_text}
use omni_sem.Storage.{unless, Database, mark_source_deleted, removed}
use omni_sem.Storage.Samples.{stored, source, stored-Keyed, stored-Searchable}
use omni_sem.Storage.Scans.{
  upsert_root, replace_root, is_active, list_active_source_files, insert_scan_run,
}
use omni_sem.Storage.Runs.{PathIsFree}
use omni_sem.Discovery.{DiscoveryReport, default_options, try_from_system_time}
use omni_sem.Discovery.Filters.{
  merged_excludes, relative_to_match_str, is_hidden_relative, path_is_within_root,
  relative_within_root, compile_patterns, compile_optional_patterns, canonicalize_root,
  check_patterns,
}
use omni_sem.Discovery.FileTypes.{classify_supported_file}
use omni_sem.Discovery.Walk.{
  classify, collect, classify_and_collect, process_file, process_entry, visit_entries, walk_root,
  discover_root,
}
use omni_sem.Discovery.Samples.{todo, todo_document, one_note, notes_root}
use omni_sem.Index.{process_document}
use omni_sem.Index.Scan.{
  mark_and_finish, finish_scan, with_time, ScanContext, GitBase, RootIndexReport, is_seen,
  mark_unseen, process_documents, then_scan, scan_run, scan_documents, count_outcome,
  index_one_root_full,
}
use omni_sem.Index.Scan.Unseen.{index_one_root_full-is_seen}
use omni_sem.Index.Scan.Kept.{Sound, index_one_root_full-Sound}
use omni_sem.Index.Scan.Reports.{index_one_root_full-reports}

-- No file can be read.
abbrev scan : ScanContext
scan = record {
  started_at = ok 20;
  deleted_at = ok 21;
  completed_at = ok 22;
  list_error = none;
  mark_error = λ source. none;
  run_id = 7;
  show_id = decimal;
  show_path = match_text;
  context_of = λ document. record {
    now = 20;
    new_source_id = 3;
    new_revision_id = 12;
    new_segment_id = λ n. n;
    hash_bytes = λ bytes. bytes;
    hash_text = λ text. text;
    hash_path = λ path. [];
  };
  read = λ document. err (codes "gone");
}

abbrev base : GitBase
base = record {
  requested_base = none;
  resolved_base = none;
  current_head = none;
  fallback_reason = none;
}

abbrev todo_source : SourceFile
todo_source = record source { id = 2; relative_path = todo; current_revision_id = none }

-- The note that is gone and the one that is there.
abbrev two_sources : Database
two_sources = record stored { source_files = source ∷ todo_source ∷ [] }

abbrev discovery : DiscoveryReport
discovery = record { documents = todo_document ∷ []; skipped = [] }

found : discover_root one_note notes_root default_options ≡ ok discovery
unfolding discover_root canonicalize_root compile_patterns compile_optional_patterns walk_root
    visit_entries merged_excludes check_patterns process_entry path_eq same_component text_eq
    relative_within_root strip_base is_escape is_hidden_relative str_starts_with strip_prefix
    process_file classify_and_collect collect classify relative_to_match_str join
    classify_supported_file path_is_within_root starts_with try_from_system_time sort_by insert_by
    compare_path
found = refl

path_free : PathIsFree notes_root two_sources
path_free = refl

index_one_root_full-reports_example :
    (report : RootIndexReport) × ((index_one_root_full scan notes_root [] one_note base
        two_sources).1
      ≡ ok report)
index_one_root_full-reports_example =
    index_one_root_full-reports scan notes_root [] one_note base two_sources 20 21 22 refl refl refl
      refl (λ source. refl) path_free refl

todo_stays :
    In todo_source (index_one_root_full scan notes_root [] one_note base two_sources).0.source_files
unfolding index_one_root_full then_scan upsert_root text_eq match_text join_slash components_text
    component_text replace_root scan_documents mark_and_finish finish_scan with_time
    process_documents process_document count_outcome mark_unseen is_seen path_eq same_component
    list_active_source_files is_active sort_by insert_by compare_text mark_source_deleted removed
    insert_scan_run scan_run unless
todo_stays = rw found (there here)

todo_active : is_active todo_source.state ≡ true
unfolding is_active
todo_active = refl

-- The scan of both sources gives a report.
reported :
    (report : RootIndexReport) × ((index_one_root_full scan notes_root [] one_note base
        two_sources).1
      ≡ ok report)
reported =
    index_one_root_full-reports scan notes_root [] one_note base two_sources 20 21 22 refl refl refl
      refl (λ source. refl) path_free refl

index_one_root_full-is_seen_example : is_seen discovery.documents todo ≡ true
index_one_root_full-is_seen_example =
    index_one_root_full-is_seen scan one_note notes_root [] base discovery two_sources reported.0
      found reported.1 todo_source todo_stays refl todo_active

stored-Sound : Sound stored
stored-Sound = record { keyed = stored-Keyed; searchable = stored-Searchable }

index_one_root_full-Sound_example :
    Sound (index_one_root_full scan notes_root [] one_note base stored).0
index_one_root_full-Sound_example =
    index_one_root_full-Sound scan notes_root [] one_note base stored stored-Sound
