-- ===== src/Retrieval/Sensitivity/Filter.antt =====
-- Which candidates the sensitivity filter lets through.
use omni_sem.Base.{
  All-of_In, filter, ◌≡◌, ◌↔◌, ◌⊎◌, In-filter, filter-In, refl, Bool, true, false, Option, none,
  some, List, arith, In, All, nat_eq, string_eq,
}
use omni_sem.Domain.{SensitivityScope, never_return_to_mcp, require_explicit_query}
use omni_sem.Retrieval.Env.{Env}
use omni_sem.Retrieval.Candidates.{RawCandidate}
use omni_sem.Retrieval.Sensitivity.{
  SensitivityIndex, match_text, visible, sensitivity_for_path, filter_sensitivity,
}
use omni_sem.Retrieval.Sensitivity.Scope.{
  is_never, is_require, tagged, scope_of, tags_of, sensitivity_for_path_lem,
}

-- A candidate may be shown without opting in: a `NeverReturnToMcp` tag of its root matches its path, or
-- no `RequireExplicitQuery` tag does.
abbrev pub Unrestricted : {F : Type 0} → Env → SensitivityIndex → RawCandidate F → Type 0
Unrestricted env index c =
    (tagged is_never (match_text c.relative_path) (tags_of env index c.root_id) ≡ true)
    ⊎ (tagged is_require (match_text c.relative_path) (tags_of env index c.root_id) ≡ false)

visible-scope_of_iff :
    (never require : Bool)
    → (visible (scope_of none never require) false ≡ true) ↔ ((never ≡ true) ⊎ (require ≡ false))
unfolding visible
visible-scope_of_iff never require = (λ h. ground arith, λ h. ground arith)

visible_always : (scope : Option SensitivityScope) → visible scope true ≡ true
unfolding visible
visible_always none = refl
visible_always (some never_return_to_mcp) = refl
visible_always (some require_explicit_query) = refl

module _ {F : Type 0} (env : Env) (index : SensitivityIndex) where
  visible-Unrestricted_iff :
      (c : RawCandidate F)
      → (visible (sensitivity_for_path env index c.root_id c.relative_path) false ≡ true)
        ↔ Unrestricted env index c
  visible-Unrestricted_iff c = rw sensitivity_for_path_lem (visible-scope_of_iff _ _)

-- Without opting in, the filter passes exactly the candidates whose path no `RequireExplicitQuery`
-- tag of their root matches, or some `NeverReturnToMcp` tag of it does. With opting in it passes all.
pub filter_sensitivity_iff :
    {F : Type 0} (env : Env) (index : SensitivityIndex) (candidates : List (RawCandidate F))
    (c : RawCandidate F)
    → (In c (filter_sensitivity env candidates index false)
        ↔ (In c candidates × Unrestricted env index c))
      × (In c (filter_sensitivity env candidates index true) ↔ In c candidates)
unfolding filter_sensitivity
filter_sensitivity_iff {F} env index candidates c =
    let shown = λ (b : Bool) (d : RawCandidate F).
      visible (sensitivity_for_path env index d.root_id d.relative_path) b in
    (
      (
        λ m.
            let (m', q) = In-filter (shown false) {a = c} candidates m in
            (m', (visible-Unrestricted_iff env index c).0 q),
        λ m.
            filter-In (shown false) {a = c} {xs = candidates} m.0
              ((visible-Unrestricted_iff env index c).1 m.1),
      ),
      (
        λ m. (In-filter (shown true) {a = c} candidates m).0,
        λ m. filter-In (shown true) {a = c} {xs = candidates} m (visible_always _),
      ),
    )

-- What the filter passes is visible.
pub filter_sensitivity-visible :
    {F : Type 0} (env : Env) (index : SensitivityIndex) (include : Bool)
    (candidates : List (RawCandidate F))
    → All
        (λ (c : RawCandidate F).
          visible (sensitivity_for_path env index c.root_id c.relative_path) include ≡ true)
        (filter_sensitivity env candidates index include)
unfolding filter_sensitivity
filter_sensitivity-visible {F} env index include candidates =
    let shown = λ (d : RawCandidate F).
      visible (sensitivity_for_path env index d.root_id d.relative_path) include in
    All-of_In (λ (c : RawCandidate F). shown c ≡ true) (filter shown candidates)
      (λ c m. (In-filter shown {a = c} candidates m).1)
