-- ===== src/Index/Changes.antt =====
-- crates/omnisem-core/src/index.rs: the loop of `index_one_root_maybe_incremental` over the changes that
-- Git collected, with the clock, the identifiers and the reads of a scan as parameters.
pub mod Kept
mod Examples
use omni_sem.Base.{ℕ, not, Option, none, some, List, [], ◌∷◌, length, if◌then◌else◌}
use omni_sem.Domain.{FilePath, Result, ok, err}
use omni_sem.Domain.Records.{Root, DiscoveredDocument, SourceFile}
use omni_sem.Parsing.Registry.{ParserRegistry}
use omni_sem.Storage.{Database, find_source_file, mark_source_deleted}
use omni_sem.Discovery.{DiscoveryError, SkipReason, Outside, default_options}
use omni_sem.Discovery.Filters.{is_safe_relative_path}
use omni_sem.Discovery.Validate.{validate_relative_path}
use omni_sem.Index.{IndexError, domain, internal}
use omni_sem.Index.Scan.{
  Counters, no_counts, add_u32, ScanContext, discovery_error_text, process_documents,
}

pub data GitChangeKind : Type 0 where
  added : GitChangeKind
  modified : GitChangeKind
  deleted : GitChangeKind

pub record GitPathChange : Type 0 where
  pub relative_path : FilePath
  pub kind : GitChangeKind

-- The counters of the loop over the changes.
pub record ChangeCounters : Type 0 where
  pub counters : Counters
  pub explicit_deletions : ℕ
  pub files_discovered : ℕ

abbrev pub no_changes : ChangeCounters
no_changes = record { counters = no_counts; explicit_deletions = 0; files_discovered = 0 }

abbrev pub Applied : Type 0
Applied = Database × Result IndexError ChangeCounters

module _ (scan : ScanContext) (outside : Outside) (root : Root) (registry : ParserRegistry)
    (root_canonical : FilePath) where
  -- A path that is gone, with the source that has it.
  unfoldable pub apply_deletion : Option SourceFile → ChangeCounters → Database → Applied
  unfolding add_u32
  apply_deletion none counts db = (db, ok counts)
  apply_deletion (some source) counts db = elim scan.deleted_at [
    | err e ↦ (db, err (domain e))
    | ok deleted_at ↦ elim (scan.mark_error source) [
      | some e ↦ (db, err e)
      | none ↦ (
        mark_source_deleted source deleted_at db,
        ok (record counts { explicit_deletions = add_u32 counts.explicit_deletions 1 }),
      )
    ]
  ]

  -- A path that is new or changed, with what its validation gave.
  unfoldable pub apply_validated :
      Result DiscoveryError (Result SkipReason (List DiscoveredDocument))
      → ChangeCounters
      → Database
      → Applied
  unfolding process_documents add_u32
  apply_validated (err error) counts db = (db, err (internal (discovery_error_text scan error)))
  apply_validated (ok (err reason)) counts db = (db, ok counts)
  apply_validated (ok (ok documents)) counts db =
      let (db', counters) = process_documents scan root registry documents counts.counters db in
      (
        db',
        ok (record counts {
          counters = counters;
          files_discovered = add_u32 counts.files_discovered (length documents);
        }),
      )

  -- The `match` on the kind of the change.
  unfoldable pub apply_kind : GitChangeKind → FilePath → ChangeCounters → Database → Applied
  unfolding apply_deletion apply_validated
  apply_kind GitChangeKind.deleted path counts db =
      apply_deletion (find_source_file db.source_files root.id path) counts db
  apply_kind GitChangeKind.added path counts db =
      apply_validated (validate_relative_path outside root root_canonical path default_options)
        counts db
  apply_kind GitChangeKind.modified path counts db =
      apply_validated (validate_relative_path outside root root_canonical path default_options)
        counts db

  unfoldable pub apply_change : GitPathChange → ChangeCounters → Database → Applied
  unfolding apply_kind
  apply_change change counts db =
      if not (is_safe_relative_path change.relative_path)
      then (db, ok counts)
      else apply_kind change.kind change.relative_path counts db

  -- The loop; `?` returns the first error with the changes before it applied.
  unfoldable pub apply_changes : List GitPathChange → ChangeCounters → Database → Applied
  unfolding apply_change
  apply_changes [] counts db = (db, ok counts)
  apply_changes (change ∷ changes) counts db =
      let (db', applied) = apply_change change counts db in
      elim applied [ err e ↦ (db', err e) | ok counts' ↦ apply_changes changes counts' db' ]
