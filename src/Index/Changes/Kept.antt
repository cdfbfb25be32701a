-- ===== src/Index/Changes/Kept.antt =====
-- Applying the changes that Git collected keeps what a full scan keeps.
use omni_sem.Base.{
  sym, Option-cases, ℕ, ◌≡◌, refl, subst, inl, inr, Option, none, some, List, [], ◌∷◌, ◌&&◌, ◌==◌,
  Bool-cases, In, here, there, text_eq,
}
use omni_sem.Domain.{Result-cases, FilePath, Result, ok, err}
use omni_sem.Domain.Records.{Root, DiscoveredDocument, SourceFile}
use omni_sem.Retrieval.Sensitivity.{match_text}
use omni_sem.Parsing.Registry.{ParserRegistry}
use omni_sem.Storage.{mark_source_deleted, Database, find_source_file}
use omni_sem.Discovery.{DiscoveryError, SkipReason, Outside, default_options}
use omni_sem.Discovery.Filters.{is_safe_relative_path}
use omni_sem.Discovery.Validate.{validate_relative_path}
use omni_sem.Index.{domain}
use omni_sem.Index.Scan.{add_u32, ScanContext}
use omni_sem.Index.Scan.Kept.{Sound, stored_deletion-Sound, process_documents-Sound}
use omni_sem.Index.Changes.{
  GitChangeKind, GitPathChange, ChangeCounters, Applied, apply_deletion, apply_validated,
  apply_kind, apply_change, apply_changes,
}

find_source_file-In :
    (sources : List SourceFile) (root_id : ℕ) (path : FilePath) (s : SourceFile)
    → find_source_file sources root_id path ≡ some s
    → In s sources
unfolding find_source_file
find_source_file-In [] root_id path s e = absurd cc
find_source_file-In (t ∷ sources) root_id path s e =
    elim (Bool-cases
      ((t.root_id == root_id) && text_eq (match_text t.relative_path) (match_text path))) [
        | inl place ↦
            let same : some t ≡ some s = rw place at e in
            let same' : t ≡ s = cc in subst (λ r. In r (t ∷ sources)) same' here
        | inr other ↦ there (find_source_file-In sources root_id path s (rw other at e))
      ]

abbrev SoundAt : Applied → Type 0
SoundAt applied = Sound applied.0

module _ (scan : ScanContext) (outside : Outside) (root : Root) (registry : ParserRegistry)
    (root_canonical : FilePath) where
  apply_validated-Sound :
      (validated : Result DiscoveryError (Result SkipReason (List DiscoveredDocument)))
      (counts : ChangeCounters) (db : Database)
      → Sound db
      → Sound (apply_validated scan outside root registry root_canonical validated counts db).0
  unfolding apply_validated
  apply_validated-Sound (err error) counts db sound = sound
  apply_validated-Sound (ok (err reason)) counts db sound = sound
  apply_validated-Sound (ok (ok documents)) counts db sound =
      process_documents-Sound scan root registry documents counts.counters db sound

  apply_deletion-Sound :
      (existing : Option SourceFile) (counts : ChangeCounters) (db : Database)
      → ((s : SourceFile) → existing ≡ some s → In s db.source_files)
      → Sound db
      → Sound (apply_deletion scan outside root registry root_canonical existing counts db).0
  unfolding apply_deletion
  apply_deletion-Sound none counts db stored sound = sound
  apply_deletion-Sound (some s) counts db stored sound =
      let applied = apply_deletion scan outside root registry root_canonical (some s) counts db in
      elim (Result-cases scan.deleted_at) [
        | inl (e, fails) ↦
            let same : applied ≡ (db, err (domain e)) = rw fails refl in
            subst SoundAt (sym same) sound
        | inr (deleted_at, timed) ↦ elim (Option-cases (scan.mark_error s)) [
          | inr (e, fails) ↦
              let same : applied ≡ (db, err e) = rw (timed, fails) refl in
              subst SoundAt (sym same) sound
          | inl marks ↦
              let same : applied ≡ (
                mark_source_deleted s deleted_at db,
                ok (record counts { explicit_deletions = add_u32 counts.explicit_deletions 1 }),
              ) =
                rw (timed, marks) refl in
              subst SoundAt (sym same) (stored_deletion-Sound s deleted_at db (stored s refl) sound)
        ]
      ]

  apply_kind-Sound :
      (kind : GitChangeKind) (path : FilePath) (counts : ChangeCounters) (db : Database)
      → Sound db
      → Sound (apply_kind scan outside root registry root_canonical kind path counts db).0
  unfolding apply_kind
  apply_kind-Sound GitChangeKind.added path counts db sound =
      apply_validated-Sound
        (validate_relative_path outside root root_canonical path default_options) counts db sound
  apply_kind-Sound GitChangeKind.modified path counts db sound =
      apply_validated-Sound
        (validate_relative_path outside root root_canonical path default_options) counts db sound
  apply_kind-Sound GitChangeKind.deleted path counts db sound =
      apply_deletion-Sound (find_source_file db.source_files root.id path) counts db
        (find_source_file-In db.source_files root.id path) sound

  apply_change-Sound :
      (change : GitPathChange) (counts : ChangeCounters) (db : Database)
      → Sound db
      → Sound (apply_change scan outside root registry root_canonical change counts db).0
  unfolding apply_change
  apply_change-Sound change counts db sound =
      elim (Bool-cases (is_safe_relative_path change.relative_path)) [
        | inr unsafe ↦ rw unsafe sound
        | inl safe ↦ rw safe (apply_kind-Sound change.kind change.relative_path counts db sound)
      ]

  -- Applying changes, up to an error if there is one, keeps one row of sources for an identifier and
  -- for a place, and search rows that belong to the current revisions of active sources.
  pub apply_changes-Sound :
      (changes : List GitPathChange) (counts : ChangeCounters) (db : Database)
      → Sound db
      → Sound (apply_changes scan outside root registry root_canonical changes counts db).0
  unfolding apply_changes
  apply_changes-Sound [] counts db sound = sound
  apply_changes-Sound (change ∷ changes) counts db sound =
      let step = apply_change scan outside root registry root_canonical change counts db in
      let kept = apply_change-Sound change counts db sound in
      elim step.1
        as (λ r. SoundAt (elim r [
          | err e ↦ (step.0, err e)
          | ok counts' ↦
              apply_changes scan outside root registry root_canonical changes counts' step.0
        ])) [ err e ↦ kept | ok counts' ↦ apply_changes-Sound changes counts' step.0 kept ]
