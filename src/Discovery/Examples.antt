-- ===== src/Discovery/Examples.antt =====
-- Concrete runs of discovery over a root with one note and one directory.
use omni_sem.Domain.Paths.{is_escape}
use omni_sem.Base.{
  ◌+◌, ◌≡◌, refl, ◌⊎◌, true, false, [], length, All, text_eq, join, str_starts_with, strip_prefix,
}
use omni_sem.Domain.{ok, err}
use omni_sem.Domain.Paths.{same_component, path_eq, strip_base, starts_with}
use omni_sem.Discovery.{default_options, DiscoveryError, DiscoveryReport, try_from_system_time}
use omni_sem.Discovery.Filters.{
  relative_to_match_str, is_hidden_relative, path_is_within_root, relative_within_root,
}
use omni_sem.Discovery.FileTypes.{classify_supported_file}
use omni_sem.Discovery.Walk.{
  EntryContext, classify, collect, classify_and_collect, process_file, process_entry, walk_root,
  discover_root,
}
use omni_sem.Discovery.Samples.{notes, todo_entry, one_note, notes_root, notes_context}
use omni_sem.Discovery.Allowed.{IsAllowed, Resolved, discover_root-IsAllowed}
use omni_sem.Discovery.Accounted.{considered, walk_root-counted}

discover_root-IsAllowed_example :
    ((e : DiscoveryError) × (discover_root one_note notes_root default_options ≡ err e))
    ⊎ ((report : DiscoveryReport) × (discover_root one_note notes_root default_options ≡ ok report)
        × (((true ≡ false) × (report.documents ≡ []))
            ⊎ ((ctx : EntryContext) × Resolved one_note notes_root default_options ctx
                × All (IsAllowed one_note ctx) report.documents)))
discover_root-IsAllowed_example = discover_root-IsAllowed one_note notes_root default_options

walk_root-counted_example :
    length (walk_root one_note notes_context).documents
      + length (walk_root one_note notes_context).skipped
    ≡ considered notes_context (one_note.walk notes default_options)
walk_root-counted_example = walk_root-counted one_note notes_context

-- The note is found.
todo_run : length (process_entry one_note notes_context (ok todo_entry) []).1 ≡ 1
unfolding process_entry path_eq same_component text_eq relative_within_root strip_base is_escape
    is_hidden_relative str_starts_with strip_prefix process_file classify_and_collect collect
    classify relative_to_match_str join classify_supported_file path_is_within_root starts_with
    try_from_system_time
todo_run = refl
