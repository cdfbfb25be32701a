-- ===== src/Discovery/Validate.antt =====
-- discovery.rs: `validate_relative_path`, the same policy for one path that git names.
use omni_sem.Base.{
  Bool, false, not, ◌&&◌, ◌||◌, Option, none, some, List, [], ◌∷◌, ◌++◌, Text, codes, if◌then◌else◌,
}
use omni_sem.Domain.{FilePath, normal, Result, ok, err, ◌>>=◌}
use omni_sem.Domain.Records.{Root, DiscoveredDocument}
use omni_sem.Discovery.{
  DiscoveryOptions, SkipReason, not_a_file, hidden, symlink, special_file, outside_root,
  ignored_by_git, excluded_by_rule, not_included, invalid_metadata, SkippedPath, DiscoveryError,
  Metadata, Outside,
}
use omni_sem.Discovery.Filters.{
  merged_excludes, relative_to_match_str, is_hidden_relative, is_safe_relative_path,
  compile_patterns, compile_optional_patterns,
}
use omni_sem.Discovery.Walk.{
  EntryContext, is_included, classify_and_collect, resolve_symlink_within_root,
}

-- `fs::metadata(path).is_ok_and(..)` of a directory and of a file.
abbrev pub holds : (Metadata → Bool) → Result Text Metadata → Bool
holds p (err message) = false
holds p (ok metadata) = p metadata

-- `if let Some(skip) = classify_and_collect(.., &mut documents) { Err(skip.reason) } else {
-- Ok(documents.remove(0)) }`; the removal panics on an empty list, which `collect` never leaves.
unfoldable pub removed_first :
    Option SkippedPath × List DiscoveredDocument → Result SkipReason (List DiscoveredDocument)
removed_first (some skip, documents) = err skip.reason
removed_first (none, []) = ok []
removed_first (none, document ∷ documents) = ok (document ∷ [])

module _ (outside : Outside) where
  -- The ignore files in the directories on the way to the path.
  unfoldable pub nested_ignore_files : FilePath → FilePath → List FilePath
  nested_ignore_files current [] = []
  nested_ignore_files current (component ∷ rest) =
      let next = current ++ component ∷ [] in
      let nested = next ++ normal (codes ".gitignore") ∷ [] in
      (if holds (λ m. m.file_type.is_dir) (outside.metadata next)
          && holds (λ m. m.file_type.is_file) (outside.metadata nested)
        then nested ∷ []
        else [])
      ++ nested_ignore_files next rest

  unfoldable pub is_path_gitignored : FilePath → FilePath → FilePath → Bool
  unfolding nested_ignore_files
  is_path_gitignored root_canonical relative absolute =
      let exclude =
        root_canonical
        ++ normal (codes ".git") ∷ normal (codes "info") ∷ normal (codes "exclude") ∷ [] in
      let files =
        (root_canonical ++ normal (codes ".gitignore") ∷ [])
          ∷ (if holds (λ m. m.file_type.is_file) (outside.metadata exclude)
              then exclude ∷ []
              else [])
        ++ nested_ignore_files root_canonical relative in
      elim (outside.gitignore root_canonical files) [
        | none ↦ false
        | some is_ignore ↦ is_ignore absolute
      ]

  -- From the metadata of the path on.
  unfoldable pub validate_file :
      EntryContext → FilePath → FilePath → Metadata → Result SkipReason (List DiscoveredDocument)
  unfolding classify_and_collect resolve_symlink_within_root removed_first
  validate_file ctx absolute relative metadata =
      let file_type = metadata.file_type in
      if file_type.is_symlink
      then (if not ctx.root.follow_symlinks
          then err symlink
          else elim (resolve_symlink_within_root outside ctx.root_path absolute) [
            | err reason ↦ err reason
            | ok (resolved, resolved_meta) ↦
                removed_first (classify_and_collect outside ctx resolved relative resolved_meta [])
          ])
      else if not file_type.is_file || file_type.is_special
      then err (if file_type.is_file then special_file else not_a_file)
      else removed_first (classify_and_collect outside ctx absolute relative metadata [])

  -- From the compiled patterns on.
  unfoldable pub validate_matched :
      EntryContext → FilePath → Result SkipReason (List DiscoveredDocument)
  unfolding validate_file relative_to_match_str is_path_gitignored
  validate_matched ctx relative =
      let relative_str = relative_to_match_str relative in
      let absolute = ctx.root_path ++ relative in
      if ctx.exclude relative_str
      then err excluded_by_rule
      else if not (is_included ctx.include relative_str)
      then err not_included
      else if ctx.options.honor_gitignore && is_path_gitignored ctx.root_path relative absolute
      then err ignored_by_git
      else elim (outside.symlink_metadata absolute) [
        | err message ↦ err (invalid_metadata message)
        | ok metadata ↦ validate_file ctx absolute relative metadata
      ]

  -- The document of an accepted path stands in a list of one.
  unfoldable pub validate_relative_path :
      Root
      → FilePath
      → FilePath
      → DiscoveryOptions
      → Result DiscoveryError (Result SkipReason (List DiscoveredDocument))
  unfolding is_safe_relative_path is_hidden_relative merged_excludes compile_patterns
      compile_optional_patterns validate_matched
  validate_relative_path root root_canonical relative options =
      if not (is_safe_relative_path relative)
      then ok (err outside_root)
      else if options.ignore_hidden && is_hidden_relative relative
      then ok (err hidden)
      else compile_patterns outside (merged_excludes root options) >>= (λ exclude.
        compile_optional_patterns outside root.include_patterns >>= (λ include.
          let ctx : EntryContext = record {
            root = root;
            root_path = root_canonical;
            options = options;
            exclude = exclude;
            include = include;
          } in
          ok (validate_matched ctx relative)))
