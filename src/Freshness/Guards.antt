-- ===== src/Freshness/Guards.antt =====
-- A status other than unknown has passed every guard.
use omni_sem.Domain.Paths.{is_escape}
use omni_sem.Base.{
  ◌+◌, min, ◌<◌, ◌≤◌, ◌≡◌, refl, ◌⊎◌, inl, inr, true, false, Option, none, some, ◌++◌, any, ltb,
  arith, Bool-cases, Option-cases,
}
use omni_sem.Domain.{Timestamp, FilePath, FreshnessStatus, current, pending_reindex, unknown}
use omni_sem.Domain.Paths.{starts_with, starts_with-append}
use omni_sem.Freshness.{
  Metadata, FileSystem, i64_max, with_skew, compare_stamps, is_inside, inspect_freshness,
}

-- The file's metadata, its time and the stored time were there, a link resolves to a path under the
-- root, and the times decide.
pub record Compared (fs : FileSystem) (root path : FilePath) (stored : Option Timestamp)
    (status : FreshnessStatus) : Type 0 where
  pub metadata : Metadata
  pub modified : Timestamp
  pub indexed : Timestamp
  pub confined : any is_escape path ≡ false
  pub found : fs.symlink_metadata (root ++ path) ≡ some metadata
  pub at : metadata.modified ≡ some modified
  pub known : stored ≡ some indexed
  pub inside :
      (metadata.is_symlink ≡ false)
      ⊎ ((resolved : FilePath) × (fs.canonicalize (root ++ path) ≡ some resolved)
          × (starts_with resolved root ≡ true))
  pub decided :
      ((status ≡ current) × (modified ≤ min (indexed + 1_000) i64_max))
      ⊎ ((status ≡ pending_reindex) × (min (indexed + 1_000) i64_max < modified))

-- Why nothing is known of the file: the path leaves the root, there is no metadata, no time of it or no
-- stored time, or the file is a link that does not resolve or that resolves to a path elsewhere.
pub data Unreadable (fs : FileSystem) (root path : FilePath) (stored : Option Timestamp)
    : Type 0 where
  escapes : any is_escape path ≡ true → Unreadable fs root path stored
  no_metadata : fs.symlink_metadata (root ++ path) ≡ none → Unreadable fs root path stored
  timeless :
      (metadata : Metadata)
      → fs.symlink_metadata (root ++ path) ≡ some metadata
      → metadata.modified ≡ none
      → Unreadable fs root path stored
  never_stored : stored ≡ none → Unreadable fs root path stored
  unresolved :
      (metadata : Metadata)
      → fs.symlink_metadata (root ++ path) ≡ some metadata
      → metadata.is_symlink ≡ true
      → fs.canonicalize (root ++ path) ≡ none
      → Unreadable fs root path stored
  elsewhere :
      (metadata : Metadata) (resolved : FilePath)
      → fs.symlink_metadata (root ++ path) ≡ some metadata
      → metadata.is_symlink ≡ true
      → fs.canonicalize (root ++ path) ≡ some resolved
      → starts_with resolved root ≡ false
      → Unreadable fs root path stored

stamps-decide :
    (modified indexed : Timestamp)
    → ((compare_stamps (some modified) (some indexed) ≡ current)
        × (modified ≤ min (indexed + 1_000) i64_max))
      ⊎ ((compare_stamps (some modified) (some indexed) ≡ pending_reindex)
          × (min (indexed + 1_000) i64_max < modified))
unfolding compare_stamps with_skew
stamps-decide modified indexed = elim (Bool-cases (ltb (with_skew indexed) modified)) [
  | inl newer ↦ inr (rw newer refl, ground arith)
  | inr same ↦ inl (rw same refl, ground arith)
]

module _ (fs : FileSystem) (root path : FilePath) where
  inside-cases :
      (metadata : Metadata)
      → is_inside fs root (root ++ path) metadata ≡ true
      → (metadata.is_symlink ≡ false)
        ⊎ ((resolved : FilePath) × (fs.canonicalize (root ++ path) ≡ some resolved)
            × (starts_with resolved root ≡ true))
  unfolding is_inside
  inside-cases metadata h = elim (Bool-cases metadata.is_symlink) [
    | inr plain ↦ inl plain
    | inl link ↦ elim (Option-cases (fs.canonicalize (root ++ path))) [
      | inl missing ↦ absurd (ground arith)
      | inr (resolved, found) ↦ inr (resolved, found, rw (link, found) at h)
    ]
  ]

  outside-Unreadable :
      (stored : Option Timestamp) (metadata : Metadata)
      → fs.symlink_metadata (root ++ path) ≡ some metadata
      → is_inside fs root (root ++ path) metadata ≡ false
      → Unreadable fs root path stored
  unfolding is_inside
  outside-Unreadable stored metadata found h = elim (Bool-cases metadata.is_symlink) [
    | inr plain ↦ let under = starts_with-append root path in absurd (ground arith)
    | inl link ↦ elim (Option-cases (fs.canonicalize (root ++ path))) [
      | inl missing ↦ unresolved metadata found link missing
      | inr (resolved, at) ↦ elsewhere metadata resolved found link at (rw (link, at) at h)
    ]
  ]

  -- Freshness is unknown for one of these reasons: the path has a parent or root component, the file
  -- has no metadata or no time, there is no stored time, or the file is a link that does not resolve to
  -- a path under the root. Otherwise the path has no such component, all of these are
  -- there, the file is no link or resolves to a path under the root, and the status is pending when
  -- the file is more than 1,000 milliseconds newer than what is stored, and current when it is not.
  pub inspect_freshness-Compared :
      (stored : Option Timestamp)
      → ((inspect_freshness fs root path stored ≡ unknown) × Unreadable fs root path stored)
        ⊎ Compared fs root path stored (inspect_freshness fs root path stored)
  unfolding inspect_freshness compare_stamps
  inspect_freshness-Compared stored = elim (Bool-cases (any is_escape path)) [
    | inl escaping ↦ inl (rw (inspect_freshness, escaping) refl, escapes escaping)
    | inr confined ↦ elim (Option-cases (fs.symlink_metadata (root ++ path))) [
      | inl missing ↦ inl (rw (inspect_freshness, confined, missing) refl, no_metadata missing)
      | inr (metadata, found) ↦ elim (Bool-cases (is_inside fs root (root ++ path) metadata)) [
        | inr outside ↦ inl (
          rw (inspect_freshness, confined, found, outside) refl,
          outside-Unreadable stored metadata found outside,
        )
        | inl inside ↦ elim (Option-cases metadata.modified) [
          | inl no_time ↦ inl (
            rw (inspect_freshness, confined, found, inside, no_time) refl,
            timeless metadata found no_time,
          )
          | inr (modified, at) ↦
              rw (confined, found, inside, at)
                (by_stored metadata modified confined found inside at stored)
        ]
      ]
    ]
  ]
    where
      by_stored :
          (metadata : Metadata) (modified : Timestamp)
          → any is_escape path ≡ false
          → fs.symlink_metadata (root ++ path) ≡ some metadata
          → is_inside fs root (root ++ path) metadata ≡ true
          → metadata.modified ≡ some modified
          → (s : Option Timestamp)
          → ((compare_stamps (some modified) s ≡ unknown) × Unreadable fs root path s)
            ⊎ Compared fs root path s (compare_stamps (some modified) s)
      by_stored metadata modified confined found inside at none = inl (refl, never_stored refl)
      by_stored metadata modified confined found inside at (some indexed) = inr record {
        metadata = metadata;
        modified = modified;
        indexed = indexed;
        confined = confined;
        found = found;
        at = at;
        known = refl;
        inside = inside-cases metadata inside;
        decided = stamps-decide modified indexed;
      }
