-- ===== src/Retrieval/Sensitivity.antt =====
-- The sensitivity of a path and the filter on candidates, from
-- crates/omnisem-core/src/retrieval.rs. The map from roots to tag sets is an association list whose
-- first entry counts, so an insertion replaces.
pub mod Scope
pub mod Filter
mod Examples
use omni_sem.Base.{
  ℕ, Bool, true, false, Option, none, some, List, [], ◌∷◌, ◌++◌, Text, codes, text_eq,
  if◌then◌else◌, filter,
}
use omni_sem.Domain.{
  FilePath, Component, prefix, root_dir, cur_dir, parent_dir, normal, SensitivityScope,
  never_return_to_mcp, require_explicit_query, Result, ok, err,
}
use omni_sem.Domain.Names.{scope_from_str}
use omni_sem.Retrieval.Env.{Env}
use omni_sem.Retrieval.Candidates.{RawCandidate}

-- config.rs: `SensitivityConfig` and the fields of `RootConfig` that are read here.
pub record SensitivityConfig : Type 0 where
  pub pattern : Text
  pub scope : Text

pub record RootConfig : Type 0 where
  pub id : Text
  pub sensitivity : List SensitivityConfig

abbrev pub TagSet : Type 0
TagSet = (Text → Bool) × SensitivityScope

abbrev pub SensitivityIndex : Type 0
SensitivityIndex = List (Text × List TagSet)

module _ (env : Env) where
  -- The set of one pattern; a pattern that does not parse leaves the builder empty.
  tag_set : SensitivityConfig → SensitivityScope → List TagSet
  tag_set tag scope =
      elim (env.glob_build (if env.glob_parses tag.pattern then tag.pattern ∷ [] else [])) [
        | none ↦ []
        | some is_match ↦ (is_match, scope) ∷ []
      ]

  pub load_tags : List SensitivityConfig → List TagSet
  load_tags [] = []
  load_tags (tag ∷ tags) = elim (scope_from_str tag.scope) [
    | err _ ↦ load_tags tags
    | ok scope ↦ tag_set tag scope ++ load_tags tags
  ]

  load_from : SensitivityIndex → List RootConfig → SensitivityIndex
  load_from by_root [] = by_root
  load_from by_root (root ∷ roots) =
      load_from ((root.id, load_tags root.sensitivity) ∷ by_root) roots

  pub load_sensitivity_sets : List RootConfig → SensitivityIndex
  load_sensitivity_sets roots = load_from [] roots

pub get_root : Text → SensitivityIndex → Option (List TagSet)
get_root key [] = none
get_root key ((id, entries) ∷ index) = if text_eq id key then some entries else get_root key index

-- `component.as_os_str()`.
unfoldable pub component_text : Component → Text
component_text (prefix s) = s
component_text root_dir = codes "/"
component_text cur_dir = codes "."
component_text parent_dir = codes ".."
component_text (normal s) = s

unfoldable pub join_slash : List Text → Text
join_slash [] = []
join_slash (s ∷ []) = s
join_slash (s ∷ t ∷ ts) = s ++ codes "/" ++ join_slash (t ∷ ts)

unfoldable pub components_text : FilePath → List Text
components_text [] = []
components_text (c ∷ path) = component_text c ∷ components_text path

-- `relative_to_match_str` of discovery.rs is the same text.
unfoldable pub match_text : FilePath → Text
match_text path = join_slash (components_text path)

-- `NeverReturnToMcp` is preferred; otherwise the later tag counts.
pub prefer : Option SensitivityScope → SensitivityScope → SensitivityScope
prefer (some never_return_to_mcp) scope = never_return_to_mcp
prefer (some require_explicit_query) scope = scope
prefer none scope = scope

pub strongest : Option SensitivityScope → Text → List TagSet → Option SensitivityScope
strongest matched path [] = matched
strongest matched path ((is_match, scope) ∷ entries) =
    strongest (if is_match path then some (prefer matched scope) else matched) path entries

-- `NeverReturnToMcp` remains eligible for local retrieval.
pub visible : Option SensitivityScope → Bool → Bool
visible (some require_explicit_query) include_sensitive = include_sensitive
visible (some never_return_to_mcp) include_sensitive = true
visible none include_sensitive = true

module _ (env : Env) where
  pub sensitivity_for_path : SensitivityIndex → ℕ → FilePath → Option SensitivityScope
  sensitivity_for_path index root_id relative_path = elim (get_root (env.show_id root_id) index) [
    | none ↦ none
    | some entries ↦ strongest none (match_text relative_path) entries
  ]

  pub filter_sensitivity :
      {F : Type 0} → List (RawCandidate F) → SensitivityIndex → Bool → List (RawCandidate F)
  filter_sensitivity candidates index include_sensitive =
      filter (λ c. visible (sensitivity_for_path index c.root_id c.relative_path) include_sensitive)
        candidates
