-- ===== src/Discovery/Accounted.antt =====
-- No entry of the walk is lost: each gives a document or a skip, the directories excepted.
use omni_sem.Base.{
  ℕ, ◌+◌, ◌≡◌, refl, subst, sym, inl, inr, Bool, true, false, not, ◌&&◌, ◌||◌, List, [], ◌∷◌, ◌++◌,
  Text, if◌then◌else◌, length, length-append, length-sort_by, arith, Bool-cases,
}
use omni_sem.Domain.{FilePath, Result, ok, err, Result-cases}
use omni_sem.Domain.Records.{DiscoveredDocument}
use omni_sem.Domain.Paths.{path_eq, compare_path}
use omni_sem.Discovery.{SkippedPath, Metadata, DirEntry, Outside}
use omni_sem.Discovery.Filters.{is_hidden_relative, relative_within_root}
use omni_sem.Discovery.Walk.{
  EntryContext, EntryResult, is_directory, skips, classify, collect, classify_and_collect,
  resolve_symlink_within_root, handle_symlink, process_file, process_entry, visit_entries,
  walk_root,
}

abbrev is_ok {ℓ κ} : {E : Type ℓ} {A : Type κ} → Result E A → Bool
is_ok (ok a) = true
is_ok (err e) = false

-- The root itself, and a directory under it, are passed over.
abbrev pub is_passed_over : EntryContext → Result Text DirEntry → Bool
is_passed_over ctx (err message) = false
is_passed_over ctx (ok entry) =
    path_eq entry.path ctx.root_path
    || (is_ok (relative_within_root ctx.root_path entry.path) && is_directory entry.file_type)

-- The entries that are not passed over.
abbrev pub considered : EntryContext → List (Result Text DirEntry) → ℕ
considered ctx [] = 0
considered ctx (entry ∷ rest) = (if is_passed_over ctx entry then 0 else 1) + considered ctx rest

-- One document or one skip more.
abbrev One : List DiscoveredDocument → EntryResult → Type 0
One documents p = length p.1 + length (skips p.0) ≡ length documents + 1

module _ (outside : Outside) (ctx : EntryContext) where
  classify_and_collect-One :
      (absolute relative : FilePath) (metadata : Metadata) (documents : List DiscoveredDocument)
      → One documents (
        ok (classify_and_collect outside ctx absolute relative metadata documents).0,
        (classify_and_collect outside ctx absolute relative metadata documents).1,
      )
  unfolding classify_and_collect collect
  classify_and_collect-One absolute relative metadata documents =
      elim (Result-cases (classify outside ctx absolute relative metadata)) [
        | inl (reason, e) ↦ rw e refl
        | inr (d, e) ↦ rw e (omega (arith, length-append {0} documents (d ∷ [])))
      ]

  handle_symlink-One :
      (path relative : FilePath) (documents : List DiscoveredDocument)
      → One documents (handle_symlink outside ctx path relative documents)
  unfolding handle_symlink
  handle_symlink-One path relative documents = elim (Bool-cases ctx.root.follow_symlinks) [
    | inr ignored ↦ rw (handle_symlink, ignored) refl
    | inl followed ↦ elim (Result-cases (resolve_symlink_within_root outside ctx.root_path path)) [
      | inl (reason, e) ↦ rw (handle_symlink, followed, e) refl
      | inr ((resolved, metadata), e) ↦
          let stepped = classify_and_collect outside ctx resolved relative metadata documents in
          let eq : handle_symlink outside ctx path relative documents ≡ (ok stepped.0, stepped.1) =
            rw (handle_symlink, followed, e) refl in
          subst (One documents) (sym eq)
            (classify_and_collect-One resolved relative metadata documents)
    ]
  ]

  process_file-One :
      (path relative : FilePath) (metadata : Metadata) (documents : List DiscoveredDocument)
      → One documents (process_file outside ctx path relative metadata documents)
  unfolding process_file
  process_file-One path relative metadata documents =
      elim (Bool-cases metadata.file_type.is_symlink) [
        | inl link ↦ rw (process_file, link) (handle_symlink-One path relative documents)
        | inr plain ↦
            elim (Bool-cases (not metadata.file_type.is_file || metadata.file_type.is_special)) [
              | inl special ↦ rw (process_file, plain, special) refl
              | inr regular ↦
                  rw (process_file, plain, regular)
                    (classify_and_collect-One path relative metadata documents)
            ]
      ]

  process_entry-counted :
      (entry : Result Text DirEntry) (documents : List DiscoveredDocument)
      → length (process_entry outside ctx entry documents).1
          + length (skips (process_entry outside ctx entry documents).0)
        ≡ length documents + (if is_passed_over ctx entry then 0 else 1)
  unfolding process_entry
  process_entry-counted (err message) documents = refl
  process_entry-counted (ok entry) documents =
      elim (Bool-cases (path_eq entry.path ctx.root_path)) [
        | inl root ↦ rw (process_entry, root) refl
        | inr below ↦ elim (Result-cases (relative_within_root ctx.root_path entry.path)) [
          | inl (reason, e) ↦ rw (process_entry, below, e) refl
          | inr (relative, e) ↦ elim (Bool-cases (is_directory entry.file_type)) [
            | inl dir ↦ rw (process_entry, below, e, dir) refl
            | inr file ↦
                elim (Bool-cases (ctx.options.ignore_hidden && is_hidden_relative relative)) [
                  | inl hid ↦ rw (process_entry, below, e, file, hid) refl
                  | inr shown ↦ elim (Result-cases entry.metadata) [
                    | inl (message, m) ↦ rw (process_entry, below, e, file, shown, m) refl
                    | inr (metadata, m) ↦
                        rw (process_entry, below, e, file, shown, m)
                          (process_file-One entry.path relative metadata documents)
                  ]
                ]
          ]
        ]
      ]

  visit_entries-counted :
      (entries : List (Result Text DirEntry)) (documents : List DiscoveredDocument)
      (skipped : List SkippedPath)
      → length (visit_entries outside ctx entries documents skipped).documents
          + length (visit_entries outside ctx entries documents skipped).skipped
        ≡ length documents + length skipped + considered ctx entries
  unfolding visit_entries
  visit_entries-counted [] documents skipped = omega arith
  visit_entries-counted (entry ∷ rest) documents skipped =
      let processed = process_entry outside ctx entry documents in
      omega (
        arith,
        visit_entries-counted rest processed.1 (skipped ++ skips processed.0),
        process_entry-counted entry documents,
        length-append {0} skipped (skips processed.0),
      )

  -- The documents and the skips of a walk are together as many as the entries of the walker, those
  -- passed over excepted: the root itself and the directories under it.
  pub walk_root-counted :
      length (walk_root outside ctx).documents + length (walk_root outside ctx).skipped
      ≡ considered ctx (outside.walk ctx.root_path ctx.options)
  unfolding walk_root
  walk_root-counted =
      let entries = outside.walk ctx.root_path ctx.options in
      omega (
        arith,
        visit_entries-counted entries [] [],
        length-sort_by (λ (l r : DiscoveredDocument). compare_path l.relative_path r.relative_path)
            (visit_entries outside ctx entries [] []).documents,
      )
