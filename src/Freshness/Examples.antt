-- ===== src/Freshness/Examples.antt =====
-- A file that is two seconds newer than what is stored.
use omni_sem.Base.{◌≡◌, ◌⊎◌, some, none, false, [], ◌∷◌, codes}
use omni_sem.Domain.{FilePath, root_dir, normal, unknown}
use omni_sem.Freshness.{FileSystem, inspect_freshness}
use omni_sem.Freshness.Guards.{Unreadable, Compared, inspect_freshness-Compared}

abbrev disk : FileSystem
disk = record {
  symlink_metadata = λ path. some record { is_symlink = false; modified = some 7_000 };
  canonicalize = λ path. none;
}

abbrev notes : FilePath
notes = root_dir ∷ normal (codes "notes") ∷ []

inspect_freshness-Compared_example :
    ((inspect_freshness disk notes (normal (codes "a.md") ∷ []) (some 5_000) ≡ unknown)
      × Unreadable disk notes (normal (codes "a.md") ∷ []) (some 5_000))
    ⊎ Compared disk notes
        (normal (codes "a.md") ∷ [])
        (some 5_000)
        (inspect_freshness disk notes (normal (codes "a.md") ∷ []) (some 5_000))
inspect_freshness-Compared_example =
    inspect_freshness-Compared disk notes (normal (codes "a.md") ∷ []) (some 5_000)
