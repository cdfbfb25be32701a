-- ===== src/Retrieval/Pipeline/Decode.antt =====
-- embedding.rs: the vectors that are stored as bytes, and the sum of products that the scan over them
-- and the test of their norm compute.
use omni_sem.Base.{
  ℕ, ◌*◌, Bool, not, ◌&&◌, Option, none, some, List, [], ◌∷◌, if◌then◌else◌, is_empty, length, ◌==◌,
  any, nat_eq,
}
use omni_sem.Retrieval.Env.{Floats}

module _ {F : Type 0} (floats : Floats F) where
  -- `chunks_exact(4)` and `f32::from_le_bytes`
  unfoldable pub chunks : List ℕ → List F
  chunks (a ∷ b ∷ c ∷ d ∷ bytes) = floats.from_le_bytes a b c d ∷ chunks bytes
  chunks (a ∷ b ∷ c ∷ []) = []
  chunks (a ∷ b ∷ []) = []
  chunks (a ∷ []) = []
  chunks [] = []

  -- The sum of the products, in double precision.
  unfoldable pub dot_from : F → List F → List F → F
  dot_from total (a ∷ xs) (b ∷ ys) =
      dot_from (floats.add total (floats.mul (floats.widen a) (floats.widen b))) xs ys
  dot_from total (a ∷ xs) [] = total
  dot_from total [] ys = total

  -- embedding.rs: `validate_normalized_vector(..).is_ok()`
  unfoldable pub is_normalized : List F → Bool
  unfolding dot_from
  is_normalized values =
      let norm_sq = dot_from floats.zero values values in
      not (is_empty values)
      && not (any (λ x. not (floats.is_finite x)) values)
      && floats.is_finite norm_sq
      && not (floats.le norm_sq floats.epsilon)
      && floats.le (floats.abs (floats.add norm_sq (floats.neg (floats.of_nat 1))))
          floats.norm_tolerance

  -- The values, unless it is an error.
  unfoldable pub decode_vector : List ℕ → ℕ → Option (List F)
  unfolding chunks is_normalized
  decode_vector bytes dimensions =
      if not (length bytes == dimensions * 4)
      then none
      else if is_normalized (chunks bytes)
      then some (chunks bytes)
      else none
