-- ===== src/Discovery/Alike.antt =====
-- What the walk and the validation of one path do alike with a file, and where the patterns refuse it.
use omni_sem.Domain.Paths.{is_escape}
use omni_sem.Base.{
  ◌≡◌, refl, ◌∙◌, sym, ap, inl, inr, true, false, not, ◌||◌, List, [], ◌∷◌, ◌++◌, all, any,
  is_empty, arith, Bool-cases,
}
use omni_sem.Domain.{
  FilePath, prefix, root_dir, cur_dir, parent_dir, normal, Result, ok, err, Result-cases,
}
use omni_sem.Domain.Records.{DiscoveredDocument}
use omni_sem.Domain.Paths.{path_eq, strip_base-append, path_eq-append_false}
use omni_sem.Discovery.{SkipReason, DiscoveryError, Metadata, Outside}
use omni_sem.Discovery.Filters.{is_normal, relative_within_root, is_safe_relative_path}
use omni_sem.Discovery.Walk.{
  EntryContext, classify, collect, classify_and_collect, resolve_symlink_within_root,
  handle_symlink, process_file,
}
use omni_sem.Discovery.Validate.{removed_first, validate_file}

-- The documents that a validation accepts.
abbrev pub accepted_of : Result SkipReason (List DiscoveredDocument) → List DiscoveredDocument
accepted_of (ok documents) = documents
accepted_of (err reason) = []

abbrev pub accepted :
    Result DiscoveryError (Result SkipReason (List DiscoveredDocument)) → List DiscoveredDocument
accepted (ok validated) = accepted_of validated
accepted (err e) = []

removed_first-collect :
    (relative : FilePath) (r : Result SkipReason DiscoveredDocument)
    → accepted_of (removed_first (collect relative r [])) ≡ (collect relative r []).1
unfolding collect removed_first
removed_first-collect relative (err reason) = refl
removed_first-collect relative (ok d) = refl

is_escape-normal : (path : FilePath) → all is_normal path ≡ true → any is_escape path ≡ false
unfolding is_normal is_escape
is_escape-normal [] h = refl
is_escape-normal ((normal s) ∷ path) h = is_escape-normal path h
is_escape-normal (parent_dir ∷ path) h = cc
is_escape-normal (root_dir ∷ path) h = cc
is_escape-normal (cur_dir ∷ path) h = cc
is_escape-normal ((prefix s) ∷ path) h = cc

is_safe-parts :
    (relative : FilePath)
    → is_safe_relative_path relative ≡ true
    → (is_empty relative ≡ false) × (all is_normal relative ≡ true)
unfolding is_safe_relative_path
is_safe-parts relative h = ground arith

pub relative_within_root-append :
    (root relative : FilePath)
    → is_safe_relative_path relative ≡ true
    → relative_within_root root (root ++ relative) ≡ ok relative
unfolding relative_within_root
relative_within_root-append root relative h =
    let normal' = is_escape-normal relative (is_safe-parts relative h).1 in
    rw (strip_base-append root relative, relative_within_root, normal') refl

pub path_eq-safe :
    (root relative : FilePath)
    → is_safe_relative_path relative ≡ true
    → path_eq (root ++ relative) root ≡ false
unfolding is_safe_relative_path
path_eq-safe root [] h = cc
path_eq-safe root (c ∷ relative) h = path_eq-append_false root c relative

module _ (outside : Outside) (ctx : EntryContext) (relative : FilePath) where
  -- Where the patterns refuse the path, no file of it is a document.
  module _
      (refused : (absolute : FilePath) (metadata : Metadata)
        → (reason : SkipReason) × (classify outside ctx absolute relative metadata
            ≡ err reason)) where
    classify_and_collect-refused :
        (absolute : FilePath) (metadata : Metadata)
        → (classify_and_collect outside ctx absolute relative metadata []).1 ≡ []
    unfolding classify_and_collect collect
    classify_and_collect-refused absolute metadata =
        let (reason, e) = refused absolute metadata in rw e refl

    handle_symlink-refused :
        (path : FilePath) → (handle_symlink outside ctx path relative []).1 ≡ []
    unfolding handle_symlink
    handle_symlink-refused path = elim (Bool-cases ctx.root.follow_symlinks) [
      | inr ignored ↦ rw (handle_symlink, ignored) refl
      | inl followed ↦
          elim (Result-cases (resolve_symlink_within_root outside ctx.root_path path)) [
            | inl (reason, e) ↦ rw (handle_symlink, followed, e) refl
            | inr ((resolved, metadata), e) ↦
                let stepped = classify_and_collect outside ctx resolved relative metadata [] in
                let eq : (handle_symlink outside ctx path relative []).1 ≡ stepped.1 =
                  rw (handle_symlink, followed, e) refl in
                eq ∙ classify_and_collect-refused resolved metadata
          ]
    ]

    pub process_file-refused :
        (path : FilePath) (metadata : Metadata)
        → (process_file outside ctx path relative metadata []).1 ≡ []
    unfolding process_file
    process_file-refused path metadata = elim (Bool-cases metadata.file_type.is_symlink) [
      | inl link ↦ rw (process_file, link) (handle_symlink-refused path)
      | inr plain ↦
          elim (Bool-cases (not metadata.file_type.is_file || metadata.file_type.is_special)) [
            | inl special ↦ rw (process_file, plain, special) refl
            | inr regular ↦
                rw (process_file, plain, regular) (classify_and_collect-refused path metadata)
          ]
    ]

  pub validate_file-process_file :
      (absolute : FilePath) (metadata : Metadata)
      → accepted_of (validate_file outside ctx absolute relative metadata)
        ≡ (process_file outside ctx absolute relative metadata []).1
  unfolding validate_file process_file handle_symlink classify_and_collect
  validate_file-process_file absolute metadata = elim (Bool-cases metadata.file_type.is_symlink) [
    | inl link ↦ elim (Bool-cases ctx.root.follow_symlinks) [
      | inr ignored ↦ rw (process_file, validate_file, handle_symlink, link, ignored) refl
      | inl followed ↦
          elim (Result-cases (resolve_symlink_within_root outside ctx.root_path absolute)) [
            | inl (reason, e) ↦
                rw (process_file, validate_file, handle_symlink, link, followed, e) refl
            | inr ((resolved, resolved_meta), e) ↦
                let stepped = classify_and_collect outside ctx resolved relative resolved_meta [] in
                let validated : validate_file outside ctx absolute relative metadata
                    ≡ removed_first stepped =
                  rw (validate_file, link, followed, e) refl in
                let processed : (process_file outside ctx absolute relative metadata []).1
                    ≡ stepped.1 =
                  rw (process_file, handle_symlink, link, followed, e) refl in
                ap accepted_of validated
                ∙ removed_first-collect relative
                    (classify outside ctx resolved relative resolved_meta)
                ∙ sym processed
          ]
    ]
    | inr plain ↦
        elim (Bool-cases (not metadata.file_type.is_file || metadata.file_type.is_special)) [
          | inl special ↦ rw (process_file, validate_file, plain, special) refl
          | inr regular ↦
              rw (process_file, validate_file, plain, regular)
                (removed_first-collect relative (classify outside ctx absolute relative metadata))
        ]
  ]
