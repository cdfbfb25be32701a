-- ===== src/Freshness.antt =====
-- crates/omnisem-core/src/freshness.rs: whether the stored time of a document is that of its file. The
-- file system's answers are parameters. Paths are lists of components and times are not negative.
pub mod Guards
mod Examples
use omni_sem.Base.{
  ℕ, ◌+◌, Bool, true, false, not, ◌&&◌, Option, none, some, List, [], ◌∷◌, ◌++◌, text_eq, ltb, min,
  any, all, is_empty, if◌then◌else◌,
}
use omni_sem.Domain.Paths.{is_escape, starts_with}
use omni_sem.Domain.{
  Timestamp, FilePath, Component, prefix, root_dir, cur_dir, parent_dir, normal, FreshnessStatus,
  current, pending_reindex, unknown,
}

-- What is read of `Metadata`: `modified` is none when the time cannot be had or is out of range.
pub record Metadata : Type 0 where
  pub is_symlink : Bool
  pub modified : Option Timestamp

pub record FileSystem : Type 0 where
  pub symlink_metadata : FilePath → Option Metadata
  pub canonicalize : FilePath → Option FilePath

abbrev pub i64_max : ℕ
i64_max = 9_223_372_036_854_775_807

-- `Timestamp`'s `as_millis().saturating_add(1_000)`.
pub with_skew : Timestamp → Timestamp
with_skew indexed = min (indexed + 1_000) i64_max

pub compare_stamps : Option Timestamp → Option Timestamp → FreshnessStatus
compare_stamps none indexed = unknown
compare_stamps (some modified) none = unknown
compare_stamps (some modified) (some indexed) =
    if ltb (with_skew indexed) modified then pending_reindex else current

module _ (fs : FileSystem) where
  -- The file, or what a link resolves to, is under the root.
  pub is_inside : FilePath → FilePath → Metadata → Bool
  is_inside root candidate metadata =
      if metadata.is_symlink
      then elim (fs.canonicalize candidate) [
        | none ↦ false
        | some resolved ↦ starts_with resolved root
      ]
      else starts_with candidate root

  -- `root_canonical.join(relative_path)` adds the components of a path without a root.
  pub inspect_freshness : FilePath → FilePath → Option Timestamp → FreshnessStatus
  inspect_freshness root path indexed =
      if any is_escape path then unknown else elim (fs.symlink_metadata (root ++ path)) [
        | none ↦ unknown
        | some metadata ↦
            if is_inside root (root ++ path) metadata
            then compare_stamps metadata.modified indexed
            else unknown
      ]
