-- ===== src/Discovery/Walk.antt =====
-- discovery.rs: what is done with each entry of the walk, and `discover_root`. A vector that the source
-- passes on as `&mut` is an argument and a part of the result.
use omni_sem.Base.{
  Bool, true, false, not, ◌&&◌, ◌||◌, Option, none, some, List, [], ◌∷◌, ◌++◌, Text, codes, ltb,
  if◌then◌else◌, sort_by,
}
use omni_sem.Domain.{FilePath, Result, ok, err, ◌>>=◌}
use omni_sem.Domain.Records.{Root, DiscoveredDocument}
use omni_sem.Domain.Paths.{path_eq, compare_path}
use omni_sem.Discovery.{
  DiscoveryOptions, SkipReason, disabled_root, not_a_file, hidden, symlink, special_file,
  outside_root, excluded_by_rule, not_included, unsupported_type, oversized, invalid_metadata,
  SkippedPath, DiscoveryReport, DiscoveryError, try_from_system_time, FileType, Metadata, DirEntry,
  Outside,
}
use omni_sem.Discovery.Filters.{
  merged_excludes, relative_to_match_str, is_hidden_relative, path_is_within_root,
  relative_within_root, compile_patterns, compile_optional_patterns, canonicalize_root,
}
use omni_sem.Discovery.FileTypes.{classify_supported_file}

pub record EntryContext : Type 0 where
  pub root : Root
  pub root_path : FilePath
  pub options : DiscoveryOptions
  pub exclude : Text → Bool
  pub include : Option (Text → Bool)

-- The include patterns, when there are any, are matched.
abbrev pub is_included : Option (Text → Bool) → Text → Bool
is_included none relative = true
is_included (some is_match) relative = is_match relative

-- What `process_entry` does with the documents so far, and its result.
abbrev pub EntryResult : Type 0
EntryResult = Result SkippedPath (Option SkippedPath) × List DiscoveredDocument

abbrev pub is_directory : Option FileType → Bool
is_directory none = false
is_directory (some file_type) = file_type.is_dir

-- A skip that `process_entry` returns as an error, with the documents as they were.
abbrev pub skip_entry : FilePath → SkipReason → List DiscoveredDocument → EntryResult
skip_entry relative reason documents =
    (err (record { relative_path = relative; reason = reason }), documents)

-- `Ok(None) => {}`, `Ok(Some(skip)) | Err(skip) => skipped.push(skip)`
abbrev pub skips : Result SkippedPath (Option SkippedPath) → List SkippedPath
skips (err skip) = skip ∷ []
skips (ok none) = []
skips (ok (some skip)) = skip ∷ []

-- `Some(skip)` with the documents as they were, or `None` with one more.
unfoldable pub collect :
    FilePath
    → Result SkipReason DiscoveredDocument
    → List DiscoveredDocument
    → Option SkippedPath × List DiscoveredDocument
collect relative (err reason) documents =
    (some (record { relative_path = relative; reason = reason }), documents)
collect relative (ok document) documents = (none, documents ++ document ∷ [])

module _ (outside : Outside) where
  -- The guards of `classify_and_collect`, with the document that passes them.
  unfoldable pub classify :
      EntryContext → FilePath → FilePath → Metadata → Result SkipReason DiscoveredDocument
  unfolding relative_to_match_str path_is_within_root try_from_system_time
  classify ctx absolute relative metadata =
      let relative_str = relative_to_match_str relative in
      if ctx.exclude relative_str
      then err excluded_by_rule
      else if not (is_included ctx.include relative_str)
      then err not_included
      else if ltb ctx.options.max_file_size_bytes metadata.len
      then err (oversized metadata.len)
      else elim (classify_supported_file relative) [
        | none ↦ err unsupported_type
        | some file_class ↦ elim metadata.modified [
          | err message ↦ err (invalid_metadata message)
          | ok system_time ↦ elim (try_from_system_time system_time) [
            | err e ↦ err (
                invalid_metadata
                  (codes "timestamp is outside the representable Unix-millisecond range"))
            | ok modified_at ↦ elim (outside.canonicalize absolute) [
              | err message ↦ err (invalid_metadata message)
              | ok canonical_path ↦
                  if not (path_is_within_root ctx.root_path canonical_path)
                  then err outside_root
                  else ok (record {
                    root_id = ctx.root.id;
                    canonical_path = canonical_path;
                    relative_path = relative;
                    size_bytes = metadata.len;
                    modified_at = modified_at;
                    file_type = file_class;
                  })
            ]
          ]
        ]
      ]

  unfoldable pub classify_and_collect :
      EntryContext
      → FilePath
      → FilePath
      → Metadata
      → List DiscoveredDocument
      → Option SkippedPath × List DiscoveredDocument
  unfolding classify collect
  classify_and_collect ctx absolute relative metadata documents =
      collect relative (classify ctx absolute relative metadata) documents

  unfoldable pub resolve_symlink_within_root :
      FilePath → FilePath → Result SkipReason (FilePath × Metadata)
  unfolding path_is_within_root
  resolve_symlink_within_root root link = elim (outside.canonicalize link) [
    | err message ↦ err (invalid_metadata message)
    | ok resolved ↦
        if not (path_is_within_root root resolved)
        then err outside_root
        else elim (outside.metadata resolved) [
          | err message ↦ err (invalid_metadata message)
          | ok metadata ↦
              if not metadata.file_type.is_file || metadata.file_type.is_special
              then err special_file
              else ok (resolved, metadata)
        ]
  ]

  unfoldable pub handle_symlink :
      EntryContext → FilePath → FilePath → List DiscoveredDocument → EntryResult
  unfolding resolve_symlink_within_root classify_and_collect
  handle_symlink ctx path relative documents =
      if not ctx.root.follow_symlinks
      then skip_entry relative symlink documents
      else elim (resolve_symlink_within_root ctx.root_path path) [
        | err reason ↦ skip_entry relative reason documents
        | ok (resolved, resolved_meta) ↦
            let (skip, after) =
              classify_and_collect ctx resolved relative resolved_meta documents in
            (ok skip, after)
      ]

  -- From the entry's metadata on.
  unfoldable pub process_file :
      EntryContext → FilePath → FilePath → Metadata → List DiscoveredDocument → EntryResult
  unfolding handle_symlink classify_and_collect
  process_file ctx path relative metadata documents =
      let file_type = metadata.file_type in
      if file_type.is_symlink
      then handle_symlink ctx path relative documents
      else if not file_type.is_file || file_type.is_special
      then skip_entry relative (if file_type.is_file then special_file else not_a_file) documents
      else let (skip, after) = classify_and_collect ctx path relative metadata documents in
        (ok skip, after)

  unfoldable pub process_entry :
      EntryContext → Result Text DirEntry → List DiscoveredDocument → EntryResult
  unfolding process_file path_eq relative_within_root is_hidden_relative
  process_entry ctx (err message) documents =
      skip_entry (outside.path_from message) (invalid_metadata message) documents
  process_entry ctx (ok entry) documents =
      if path_eq entry.path ctx.root_path
      then (ok none, documents)
      else elim (relative_within_root ctx.root_path entry.path) [
        | err reason ↦ skip_entry entry.path reason documents
        | ok relative ↦
            if is_directory entry.file_type
            then (ok none, documents)
            else if ctx.options.ignore_hidden && is_hidden_relative relative
            then skip_entry relative hidden documents
            else elim entry.metadata [
              | err message ↦ skip_entry relative (invalid_metadata message) documents
              | ok metadata ↦ process_file ctx entry.path relative metadata documents
            ]
      ]

  -- The loop over the walker's entries.
  unfoldable pub visit_entries :
      EntryContext
      → List (Result Text DirEntry)
      → List DiscoveredDocument
      → List SkippedPath
      → DiscoveryReport
  unfolding process_entry
  visit_entries ctx [] documents skipped = record { documents = documents; skipped = skipped }
  visit_entries ctx (entry ∷ rest) documents skipped =
      let processed = process_entry ctx entry documents in
      visit_entries ctx rest processed.1 (skipped ++ skips processed.0)

  -- The report of the whole walk, documents in the order of their relative paths.
  unfoldable pub walk_root : EntryContext → DiscoveryReport
  unfolding visit_entries compare_path sort_by
  walk_root ctx =
      let report = visit_entries ctx (outside.walk ctx.root_path ctx.options) [] [] in
      record {
        documents =
            sort_by (λ left right. compare_path left.relative_path right.relative_path)
              report.documents;
        skipped = report.skipped;
      }

  unfoldable pub discover_root : Root → DiscoveryOptions → Result DiscoveryError DiscoveryReport
  unfolding canonicalize_root compile_patterns compile_optional_patterns walk_root merged_excludes
  discover_root root options =
      if not root.enabled
      then ok (record {
        documents = [];
        skipped = record { relative_path = []; reason = disabled_root } ∷ [];
      })
      else canonicalize_root outside root.canonical_path >>= (λ root_path.
        compile_patterns outside (merged_excludes root options) >>= (λ exclude.
          compile_optional_patterns outside root.include_patterns >>= (λ include. ok (
            walk_root (record {
              root = root;
              root_path = root_path;
              options = options;
              exclude = exclude;
              include = include;
            })))))
