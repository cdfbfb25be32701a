-- ===== src/Retrieval/Sensitivity/Scope.antt =====
-- The scope of a path, by which of its root's tags match it.
use omni_sem.Base.{
  ◌≡◌, refl, Bool, true, false, ◌&&◌, Option, none, some, List, [], ◌∷◌, Text, arith, any, ℕ,
  Option-cases, inl, inr,
}
use omni_sem.Domain.{FilePath, SensitivityScope, never_return_to_mcp, require_explicit_query}
use omni_sem.Retrieval.Env.{Env}
use omni_sem.Retrieval.Sensitivity.{
  TagSet, SensitivityIndex, get_root, match_text, prefer, strongest, sensitivity_for_path,
}

abbrev pub is_never : SensitivityScope → Bool
is_never never_return_to_mcp = true
is_never require_explicit_query = false

abbrev pub is_require : SensitivityScope → Bool
is_require never_return_to_mcp = false
is_require require_explicit_query = true

-- Some tag of the kind matches the path.
abbrev pub tagged : (SensitivityScope → Bool) → Text → List TagSet → Bool
tagged kind path = any (λ e. e.0 path && kind e.1)

-- `NeverReturnToMcp` wins, then `RequireExplicitQuery`, then what was known before.
abbrev pub scope_of : Option SensitivityScope → Bool → Bool → Option SensitivityScope
scope_of (some never_return_to_mcp) never require = some never_return_to_mcp
scope_of matched true require = some never_return_to_mcp
scope_of matched false true = some require_explicit_query
scope_of matched false false = matched

pub strongest_lem :
    (matched : Option SensitivityScope) (path : Text) (entries : List TagSet)
    → strongest matched path entries
      ≡ scope_of matched (tagged is_never path entries) (tagged is_require path entries)
unfolding strongest prefer
strongest_lem none path [] = refl
strongest_lem (some never_return_to_mcp) path [] = refl
strongest_lem (some require_explicit_query) path [] = refl
strongest_lem matched path ((is_match, scope) ∷ entries) = ground (
  arith,
  strongest_lem matched path entries,
  strongest_lem (some (prefer matched scope)) path entries,
)

-- The tags of a root: none for a root that the configuration does not name.
unfoldable pub tags_of : Env → SensitivityIndex → ℕ → List TagSet
tags_of env index root_id = elim (get_root (env.show_id root_id) index) [
  | none ↦ []
  | some entries ↦ entries
]

pub sensitivity_for_path_lem :
    (env : Env) (index : SensitivityIndex) (root_id : ℕ) (path : FilePath)
    → sensitivity_for_path env index root_id path
      ≡ scope_of none
          (tagged is_never (match_text path) (tags_of env index root_id))
          (tagged is_require (match_text path) (tags_of env index root_id))
unfolding sensitivity_for_path tags_of
sensitivity_for_path_lem env index root_id path =
    elim (Option-cases (get_root (env.show_id root_id) index)) [
      | inl missing ↦ rw (missing, sensitivity_for_path, tags_of) refl
      | inr (entries, found) ↦
          rw (found, sensitivity_for_path, tags_of) (strongest_lem none (match_text path) entries)
    ]
