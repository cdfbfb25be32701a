-- ===== src/Retrieval/Env.antt =====
-- What retrieval takes from outside the repository: floating-point numbers, the Unicode tables, the
-- glob library and the text form of an identifier. `F` is the type of floating-point numbers, of
-- both precisions.
use omni_sem.Base.{ℕ, Bool, Option, List, Text, Ordering}

pub record Floats (F : Type 0) : Type 0 where
  pub zero : F
  pub neg : F → F
  pub add : F → F → F
  pub neg_infinity : F
  pub is_finite : F → Bool
  pub div : F → F → F
  -- `as f32`, and the literals
  pub of_nat : ℕ → F
  -- The operations of `f64`; `widen` is `f64::from`, `narrow` is `as f32`, `clamp_unit` is
  -- `clamp(-1.0, 1.0)`, `epsilon` is `f64::EPSILON` and `norm_tolerance` is `1.0e-4`.
  pub widen : F → F
  pub narrow : F → F
  pub mul : F → F → F
  pub abs : F → F
  pub clamp_unit : F → F
  pub le : F → F → Bool
  pub epsilon : F
  pub norm_tolerance : F
  -- `f32::from_le_bytes`
  pub from_le_bytes : ℕ → ℕ → ℕ → ℕ → F
  pub partial_cmp : F → F → Option Ordering

pub record Env : Type 0 where
  -- `str::to_lowercase`
  pub to_lowercase : Text → Text
  -- `char::is_whitespace`
  pub is_whitespace : ℕ → Bool
  -- `char::is_control`
  pub is_control : ℕ → Bool
  -- `Glob::new(pattern).is_ok()`
  pub glob_parses : Text → Bool
  -- `GlobSetBuilder::build` over patterns that parse: the set's `is_match`
  pub glob_build : List Text → Option (Text → Bool)
  -- `Uuid`'s `Display`
  pub show_id : ℕ → Text
