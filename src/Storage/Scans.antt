-- ===== src/Storage/Scans.antt =====
-- crates/omnisem-core/src/storage.rs: the statements around a scan of a root: `upsert_root`,
-- `list_active_source_files` and `insert_scan_run`.
use omni_sem.Base.{
  ℕ, Bool, true, false, not, ◌&&◌, ◌||◌, List, ◌∷◌, [], ◌++◌, map, text_eq, ◌==◌, if◌then◌else◌,
  any, filter, sort_by, compare_text,
}
use omni_sem.Domain.{SourceState, active}
use omni_sem.Domain.Records.{Root, SourceFile, ScanRun}
use omni_sem.Retrieval.Sensitivity.{match_text}
use omni_sem.Storage.{Database, Outcome, unless}

-- `ON CONFLICT(id) DO UPDATE`: the time of creation stays.
unfoldable pub replace_root : Root → Root → Root
replace_root root row =
    if row.id == root.id then record root { created_at = row.created_at } else row

-- Another row with the path breaks its `UNIQUE`.
unfoldable pub upsert_root : Root → Database → Outcome
upsert_root root db =
    unless
      (any
        (λ (r : Root).
          not (r.id == root.id)
          && text_eq (match_text r.canonical_path) (match_text root.canonical_path))
        db.roots)
      (record db {
        roots =
            if any (λ (r : Root). r.id == root.id) db.roots
            then map (replace_root root) db.roots
            else db.roots ++ root ∷ [];
      })

unfoldable pub is_active : SourceState → Bool
is_active active = true
is_active _ = false

unfoldable pub list_active_source_files : ℕ → Database → List SourceFile
list_active_source_files root_id db =
    sort_by (λ a b. compare_text (match_text a.relative_path) (match_text b.relative_path))
      (filter (λ (s : SourceFile). (s.root_id == root_id) && is_active s.state) db.source_files)

unfoldable pub insert_scan_run : ScanRun → Database → Outcome
insert_scan_run run db =
    unless
      (any (λ (r : ScanRun). r.id == run.id) db.scan_runs
        || not (any (λ (r : Root). r.id == run.root_id) db.roots))
      (record db { scan_runs = db.scan_runs ++ run ∷ [] })
