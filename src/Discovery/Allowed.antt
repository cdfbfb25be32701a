-- ===== src/Discovery/Allowed.antt =====
-- Every document of a discovery passed the whole policy.
use omni_sem.Domain.Paths.{is_escape}
use omni_sem.Base.{
  ◌≡◌, ◌≤◌, refl, subst, sym, ◌⊎◌, inl, inr, true, false, not, ◌&&◌, ◌||◌, some, List, [], ◌∷◌,
  ◌++◌, Text, any, arith, Bool-cases, All, All-append, All-sort_by,
}
use omni_sem.Domain.{FilePath, Result, ok, err, Result-cases}
use omni_sem.Domain.Records.{Root, DiscoveredDocument}
use omni_sem.Domain.Paths.{path_eq, starts_with, compare_path}
use omni_sem.Discovery.{
  DiscoveryOptions, disabled_root, SkippedPath, DiscoveryReport, DiscoveryError, Metadata, DirEntry,
  Outside,
}
use omni_sem.Discovery.Filters.{
  merged_excludes, relative_to_match_str, is_hidden_relative, path_is_within_root,
  relative_within_root, compile_patterns, compile_optional_patterns, canonicalize_root,
}
use omni_sem.Discovery.FileTypes.{classify_supported_file}
use omni_sem.Discovery.Walk.{
  EntryContext, is_included, classify, collect, classify_and_collect, resolve_symlink_within_root,
  handle_symlink, process_file, process_entry, skips, is_directory, visit_entries, walk_root,
  discover_root,
}

-- What `classify` checks of a document.
pub record Classified (ctx : EntryContext) (d : DiscoveredDocument) : Type 0 where
  pub rooted : d.root_id ≡ ctx.root.id
  pub inside : starts_with d.canonical_path ctx.root_path ≡ true
  pub kept : ctx.exclude (relative_to_match_str d.relative_path) ≡ false
  pub included : is_included ctx.include (relative_to_match_str d.relative_path) ≡ true
  pub small : d.size_bytes ≤ ctx.options.max_file_size_bytes
  pub typed : classify_supported_file d.relative_path ≡ some d.file_type

classify-Classified :
    (outside : Outside) (ctx : EntryContext) (absolute relative : FilePath) (metadata : Metadata)
    (d : DiscoveredDocument)
    → classify outside ctx absolute relative metadata ≡ ok d
    → Classified ctx d × (d.relative_path ≡ relative)
unfolding classify path_is_within_root
classify-Classified outside ctx absolute relative metadata d h = ground arith

-- The documents after a step: those before it, or one more that was classified.
abbrev Grown : EntryContext → FilePath → List DiscoveredDocument → List DiscoveredDocument → Type 0
Grown ctx relative documents after =
    (after ≡ documents)
    ⊎ ((d : DiscoveredDocument) × (after ≡ documents ++ d ∷ [])
        × Classified ctx d
        × (d.relative_path ≡ relative))

module _ (outside : Outside) (ctx : EntryContext) where
  classify_and_collect-Grown :
      (absolute relative : FilePath) (metadata : Metadata) (documents : List DiscoveredDocument)
      → Grown ctx relative documents
          (classify_and_collect outside ctx absolute relative metadata documents).1
  unfolding classify_and_collect collect
  classify_and_collect-Grown absolute relative metadata documents =
      elim (Result-cases (classify outside ctx absolute relative metadata)) [
        | inl (reason, e) ↦ inl (rw e refl)
        | inr (d, e) ↦
            let (classified, same) =
              classify-Classified outside ctx absolute relative metadata d e in
            inr (d, rw e refl, classified, same)
      ]

  handle_symlink-Grown :
      (path relative : FilePath) (documents : List DiscoveredDocument)
      → Grown ctx relative documents (handle_symlink outside ctx path relative documents).1
  unfolding handle_symlink
  handle_symlink-Grown path relative documents = elim (Bool-cases ctx.root.follow_symlinks) [
    | inr ignored ↦ inl (rw (handle_symlink, ignored) refl)
    | inl followed ↦ elim (Result-cases (resolve_symlink_within_root outside ctx.root_path path)) [
      | inl (reason, e) ↦ inl (rw (handle_symlink, followed, e) refl)
      | inr ((resolved, metadata), e) ↦
          let stepped = classify_and_collect outside ctx resolved relative metadata documents in
          let eq : handle_symlink outside ctx path relative documents ≡ (ok stepped.0, stepped.1) =
            rw (handle_symlink, followed, e) refl in
          subst (λ p. Grown ctx relative documents p.1) (sym eq)
            (classify_and_collect-Grown resolved relative metadata documents)
    ]
  ]

  process_file-Grown :
      (path relative : FilePath) (metadata : Metadata) (documents : List DiscoveredDocument)
      → Grown ctx relative documents (process_file outside ctx path relative metadata documents).1
  unfolding process_file
  process_file-Grown path relative metadata documents =
      elim (Bool-cases metadata.file_type.is_symlink) [
        | inl link ↦ rw (process_file, link) (handle_symlink-Grown path relative documents)
        | inr plain ↦
            elim (Bool-cases (not metadata.file_type.is_file || metadata.file_type.is_special)) [
              | inl special ↦ inl (rw (process_file, plain, special) refl)
              | inr regular ↦
                  rw (process_file, plain, regular)
                    (classify_and_collect-Grown path relative metadata documents)
            ]
      ]

  -- The whole policy for a document.
  abbrev pub IsAllowed : DiscoveredDocument → Type 0
  IsAllowed d =
      Classified ctx d
      × (any is_escape d.relative_path ≡ false)
      × ((ctx.options.ignore_hidden && is_hidden_relative d.relative_path) ≡ false)

  relative_within_root-safe :
      (path relative : FilePath)
      → relative_within_root ctx.root_path path ≡ ok relative
      → any is_escape relative ≡ false
  unfolding relative_within_root
  relative_within_root-safe path relative h = ground arith

  process_entry-IsAllowed :
      (entry : Result Text DirEntry) (documents : List DiscoveredDocument)
      → All IsAllowed documents
      → All IsAllowed (process_entry outside ctx entry documents).1
  unfolding process_entry
  process_entry-IsAllowed (err message) documents h = h
  process_entry-IsAllowed (ok entry) documents h =
      elim (Bool-cases (path_eq entry.path ctx.root_path)) [
        | inl root ↦ rw (process_entry, root) h
        | inr below ↦ elim (Result-cases (relative_within_root ctx.root_path entry.path)) [
          | inl (reason, e) ↦ rw (process_entry, below, e) h
          | inr (relative, e) ↦ elim (Bool-cases (is_directory entry.file_type)) [
            | inl dir ↦ rw (process_entry, below, e, dir) h
            | inr file ↦
                elim (Bool-cases (ctx.options.ignore_hidden && is_hidden_relative relative)) [
                  | inl hid ↦ rw (process_entry, below, e, file, hid) h
                  | inr shown ↦ elim (Result-cases entry.metadata) [
                    | inl (message, m) ↦ rw (process_entry, below, e, file, shown, m) h
                    | inr (metadata, m) ↦
                        rw (process_entry, below, e, file, shown, m)
                          (grown relative metadata shown
                            (relative_within_root-safe entry.path relative e)
                            (process_file-Grown entry.path relative metadata documents))
                  ]
                ]
          ]
        ]
      ]
    where
      grown :
          (relative : FilePath) (metadata : Metadata)
          → (ctx.options.ignore_hidden && is_hidden_relative relative) ≡ false
          → any is_escape relative ≡ false
          → Grown ctx relative documents
              (process_file outside ctx entry.path relative metadata documents).1
          → All IsAllowed (process_file outside ctx entry.path relative metadata documents).1
      grown relative metadata shown safe (inl e) = rw e h
      grown relative metadata shown safe (inr (d, e, classified, same)) = rw e (
          All-append IsAllowed documents (d ∷ []) h ((classified, rw same safe, rw same shown), tt))

  visit_entries-IsAllowed :
      (entries : List (Result Text DirEntry)) (documents : List DiscoveredDocument)
      (skipped : List SkippedPath)
      → All IsAllowed documents
      → All IsAllowed (visit_entries outside ctx entries documents skipped).documents
  unfolding visit_entries
  visit_entries-IsAllowed [] documents skipped h = h
  visit_entries-IsAllowed (entry ∷ rest) documents skipped h =
      let processed = process_entry outside ctx entry documents in
      visit_entries-IsAllowed rest processed.1 (skipped ++ skips processed.0)
        (process_entry-IsAllowed entry documents h)

  walk_root-IsAllowed : All IsAllowed (walk_root outside ctx).documents
  unfolding walk_root
  walk_root-IsAllowed =
      All-sort_by (λ left right. compare_path left.relative_path right.relative_path) IsAllowed
        (visit_entries outside ctx (outside.walk ctx.root_path ctx.options) [] []).documents
        (visit_entries-IsAllowed (outside.walk ctx.root_path ctx.options) [] [] tt)

-- The policy of a root: how its path and patterns were resolved.
pub record Resolved (outside : Outside) (root : Root) (options : DiscoveryOptions)
    (ctx : EntryContext) : Type 0 where
  pub of_root : ctx.root ≡ root
  pub of_options : ctx.options ≡ options
  pub canonical : canonicalize_root outside root.canonical_path ≡ ok ctx.root_path
  pub excluded : compile_patterns outside (merged_excludes root options) ≡ ok ctx.exclude
  pub narrowed : compile_optional_patterns outside root.include_patterns ≡ ok ctx.include

-- Discovery fails, or the root is disabled and there are no documents, or the root's path and its
-- patterns were resolved and each document of the report has the root's identifier, a canonical path
-- under the canonical root, a relative path that no exclude pattern matches and that an include
-- pattern matches if there are any, no more than the allowed size, the type of a supported
-- extension, no parent or root component in its relative path, and no hidden component there if hidden
-- paths are ignored.
pub discover_root-IsAllowed :
    (outside : Outside) (root : Root) (options : DiscoveryOptions)
    → ((e : DiscoveryError) × (discover_root outside root options ≡ err e))
      ⊎ ((report : DiscoveryReport) × (discover_root outside root options ≡ ok report)
          × (((root.enabled ≡ false) × (report.documents ≡ []))
              ⊎ ((ctx : EntryContext) × Resolved outside root options ctx
                  × All (IsAllowed outside ctx) report.documents)))
unfolding discover_root
discover_root-IsAllowed outside root options = elim (Bool-cases root.enabled) [
  | inr disabled ↦
      let report : DiscoveryReport = record {
        documents = [];
        skipped = record { relative_path = []; reason = disabled_root } ∷ [];
      } in
      inr (report, rw (discover_root, disabled) refl, inl (disabled, refl))
  | inl enabled ↦ elim (Result-cases (canonicalize_root outside root.canonical_path)) [
    | inl (e, f) ↦ inl (e, rw (discover_root, enabled, f) refl)
    | inr (root_path, f) ↦
        elim (Result-cases (compile_patterns outside (merged_excludes root options))) [
          | inl (e, g) ↦ inl (e, rw (discover_root, enabled, f, g) refl)
          | inr (exclude, g) ↦
              elim (Result-cases (compile_optional_patterns outside root.include_patterns)) [
                | inl (e, i) ↦ inl (e, rw (discover_root, enabled, f, g, i) refl)
                | inr (include, i) ↦
                    let ctx : EntryContext = record {
                      root = root;
                      root_path = root_path;
                      options = options;
                      exclude = exclude;
                      include = include;
                    } in
                    let resolved : Resolved outside root options ctx = record {
                      of_root = refl;
                      of_options = refl;
                      canonical = f;
                      excluded = g;
                      narrowed = i;
                    } in
                    inr (
                      walk_root outside ctx,
                      rw (discover_root, enabled, f, g, i) refl,
                      inr (ctx, resolved, walk_root-IsAllowed outside ctx),
                    )
              ]
        ]
  ]
]
