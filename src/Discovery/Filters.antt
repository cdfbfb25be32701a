-- ===== src/Discovery/Filters.antt =====
-- discovery.rs: the patterns of a root and the tests on paths.
use omni_sem.Base.{
  Bool, true, false, not, ◌&&◌, Option, none, some, List, [], ◌∷◌, ◌++◌, Text, codes, if◌then◌else◌,
  is_empty, any, all, map, join, str_starts_with,
}
use omni_sem.Domain.{
  FilePath, Component, prefix, root_dir, cur_dir, parent_dir, normal, Result, ok, err,
}
use omni_sem.Domain.Records.{Root}
use omni_sem.Domain.Paths.{is_escape, strip_base, starts_with, component_str}
use omni_sem.Discovery.{
  DiscoveryOptions, DiscoveryError, invalid_pattern, root_missing, root_not_directory, io,
  root_canonicalize, SkipReason, outside_root, Outside,
}

abbrev pub default_exclude_patterns : List Text
default_exclude_patterns =
    codes "**/.git/**"
    ∷ codes "**/node_modules/**"
    ∷ codes "**/.venv/**"
    ∷ codes "**/target/**"
    ∷ codes "**/.env"
    ∷ codes "**/.env.*"
    ∷ codes "**/*.pem"
    ∷ codes "**/*.key"
    ∷ codes "**/id_rsa"
    ∷ codes "**/id_ed25519"
    ∷ codes "**/credentials.*"
    ∷ codes "**/secrets.*"
    ∷ []

unfoldable pub merged_excludes : Root → DiscoveryOptions → List Text
merged_excludes root options =
    (if options.apply_default_excludes then default_exclude_patterns else [])
    ++ root.exclude_patterns

-- `relative_to_match_str`
unfoldable pub relative_to_match_str : FilePath → Text
unfolding join
relative_to_match_str path = join (codes "/") (map component_str path)

unfoldable pub is_hidden_relative : FilePath → Bool
unfolding str_starts_with
is_hidden_relative path = any (λ c. str_starts_with (codes ".") (component_str c)) path

unfoldable pub path_is_within_root : FilePath → FilePath → Bool
unfolding starts_with
path_is_within_root root candidate = starts_with candidate root

unfoldable pub relative_within_root : FilePath → FilePath → Result SkipReason FilePath
unfolding strip_base is_escape
relative_within_root root candidate = elim (strip_base candidate root) [
  | none ↦ err outside_root
  | some relative ↦ if any is_escape relative then err outside_root else ok relative
]

unfoldable pub is_normal : Component → Bool
is_normal (normal s) = true
is_normal parent_dir = false
is_normal root_dir = false
is_normal cur_dir = false
is_normal (prefix s) = false

-- A path with a root or nothing in it has a component that is not normal, or none.
unfoldable pub is_safe_relative_path : FilePath → Bool
unfolding is_normal
is_safe_relative_path relative = not (is_empty relative) && all is_normal relative

module _ (outside : Outside) where
  -- The loop over the patterns: the first that does not parse.
  unfoldable pub check_patterns : List Text → Option DiscoveryError
  check_patterns [] = none
  check_patterns (pattern ∷ rest) = elim (outside.glob_error pattern) [
    | some message ↦ some (invalid_pattern pattern message)
    | none ↦ check_patterns rest
  ]

  unfoldable pub compile_patterns : List Text → Result DiscoveryError (Text → Bool)
  unfolding check_patterns
  compile_patterns patterns = elim (check_patterns patterns) [
    | some e ↦ err e
    | none ↦ elim (outside.glob_set patterns) [
      | err message ↦ err (invalid_pattern (codes "*") message)
      | ok is_match ↦ ok is_match
    ]
  ]

  unfoldable pub compile_optional_patterns :
      List Text → Result DiscoveryError (Option (Text → Bool))
  unfolding compile_patterns
  compile_optional_patterns [] = ok none
  compile_optional_patterns (pattern ∷ rest) = elim (compile_patterns (pattern ∷ rest)) [
    | err e ↦ err e
    | ok is_match ↦ ok (some is_match)
  ]

  unfoldable pub canonicalize_root : FilePath → Result DiscoveryError FilePath
  canonicalize_root path =
      if not (outside.path_exists path)
      then err (root_missing path)
      else elim (outside.metadata path) [
        | err message ↦ err (io path message)
        | ok metadata ↦
            if not metadata.file_type.is_dir
            then err (root_not_directory path)
            else elim (outside.canonicalize path) [
              | err message ↦ err (root_canonicalize path message)
              | ok canonical ↦ ok canonical
            ]
      ]
