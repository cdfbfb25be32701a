-- ===== src/Retrieval/Fusion/Stream.antt =====
-- The loops of `rrf_merge` are one fold over the first candidates of the lists, taken in order.
use omni_sem.Base.{
  ℕ, zero, suc, ◌+◌, ◌-◌, ◌≤◌, ◌≡◌, refl, sym, ap, ◌∙◌, true, false, List, [], ◌∷◌, ◌++◌, Text, leb,
  min, length, take, arith, length-append, length-take,
}
use native.Mathlib.Decide.{dec_le}
use omni_sem.Domain.{RetrievalHit}
use omni_sem.Retrieval.Env.{Floats}
use omni_sem.Retrieval.Fusion.{max_fusion_candidates, Acc, merge_hit, merge_list, merge_lists}

-- A candidate and its rank in its list.
pub record Ranked (F : Type 0) : Type 0 where
  pub rank : ℕ
  pub hit : RetrievalHit F

module _ {F : Type 0} where
  pub ranked : ℕ → List (RetrievalHit F) → List (Ranked F)
  ranked rank [] = []
  ranked rank (hit ∷ hits) = record { rank = rank; hit = hit } ∷ ranked (rank + 1) hits

  pub stream : List (List (RetrievalHit F)) → List (Ranked F)
  stream [] = []
  stream (list ∷ lists) = ranked 0 list ++ stream lists

  -- The candidates admitted to a fusion pass.
  pub admitted_of : List (List (RetrievalHit F)) → List (Ranked F)
  admitted_of lists = take max_fusion_candidates (stream lists)

  length-ranked :
      (rank : ℕ) (hits : List (RetrievalHit F)) → length (ranked rank hits) ≡ length hits
  unfolding ranked
  length-ranked rank [] = refl
  length-ranked rank (hit ∷ hits) = ap suc (length-ranked (rank + 1) hits)

take-nil {ℓ} : {A : Type ℓ} (n : ℕ) → take {A = A} n [] ≡ []
take-nil zero = refl
take-nil (suc n) = refl

take-append {ℓ} :
    {A : Type ℓ} (n : ℕ) (xs ys : List A) → take n (xs ++ ys) ≡ take n xs ++ take (n - length xs) ys
take-append n [] ys = let e : n - 0 ≡ n = omega arith in rw (e, take-nil) refl
take-append zero (x ∷ xs) ys = let e : 0 - suc (length xs) ≡ 0 = omega arith in rw e refl
take-append (suc n) (x ∷ xs) ys =
    let e : suc n - suc (length xs) ≡ n - length xs = omega arith in
    rw e (ap (◌∷◌ x) (take-append n xs ys))

pair_eq {ℓ κ} :
    {A : Type ℓ} {B : Type κ} {a a' : A} {b b' : B}
    → a ≡ a'
    → b ≡ b'
    → ◌≡◌ {A = A × B} (a, b) (a', b')
pair_eq p q = λ i. (p i, q i)

module _ {F : Type 0} (floats : Floats F) where
  unfoldable pub merge_all : List (Text × Acc F) → List (Ranked F) → List (Text × Acc F)
  merge_all best [] = best
  merge_all best (r ∷ rs) = merge_all (merge_hit floats best r.rank r.hit) rs

  merge_all-append :
      (best : List (Text × Acc F)) (xs ys : List (Ranked F))
      → merge_all best (xs ++ ys) ≡ merge_all (merge_all best xs) ys
  unfolding merge_all
  merge_all-append best [] ys = refl
  merge_all-append best (x ∷ xs) ys = merge_all-append (merge_hit floats best x.rank x.hit) xs ys

  merge_list_lem :
      (best : List (Text × Acc F)) (admitted rank : ℕ) (hits : List (RetrievalHit F))
      → merge_list floats best admitted rank hits ≡ (
        merge_all best (take (max_fusion_candidates - admitted) (ranked rank hits)),
        admitted + min (max_fusion_candidates - admitted) (length hits),
      )
  unfolding merge_list merge_all ranked
  merge_list_lem best admitted rank [] = pair_eq (rw take-nil refl) (omega arith)
  merge_list_lem best admitted rank (hit ∷ hits) = elim (dec_le max_fusion_candidates admitted) [
    | yes full ↦
        let t : leb max_fusion_candidates admitted ≡ true = ground arith in
        let e : max_fusion_candidates - admitted ≡ 0 = omega arith in
        rw (t, e) (pair_eq refl (omega arith))
    | no open_still ↦
        let t : leb max_fusion_candidates admitted ≡ false = ground arith in
        let e : max_fusion_candidates - admitted ≡ suc (max_fusion_candidates - (admitted + 1)) =
          omega arith in
        rw (t, e)
          (merge_list_lem (merge_hit floats best rank hit) (admitted + 1) (rank + 1) hits
            ∙ pair_eq refl (omega arith))
  ]

  merge_lists_lem :
      (best : List (Text × Acc F)) (admitted : ℕ) (lists : List (List (RetrievalHit F)))
      → merge_lists floats best admitted lists ≡ (
        merge_all best (take (max_fusion_candidates - admitted) (stream lists)),
        admitted + min (max_fusion_candidates - admitted) (length (stream lists)),
      )
  unfolding merge_lists merge_all stream
  merge_lists_lem best admitted [] = pair_eq (rw take-nil refl) (omega arith)
  merge_lists_lem best admitted (list ∷ lists) =
      let n = max_fusion_candidates - admitted in
      let m = admitted + min n (length list) in
      let left : max_fusion_candidates - m ≡ n - length (ranked 0 list) =
        omega (arith, length-ranked 0 list) in
      rw
        (
          merge_list_lem best admitted 0 list,
          merge_lists_lem (merge_all best (take n (ranked 0 list))) m lists,
          left,
        )
        (pair_eq
          (sym (merge_all-append best (take n (ranked 0 list)) _)
            ∙ ap (merge_all best) (sym (take-append n (ranked 0 list) (stream lists))))
          (omega (arith, length-append (ranked 0 list) (stream lists), length-ranked 0 list)))

  -- What the two loops of `rrf_merge` leave in the map, and how many candidates they admit.
  pub merge_lists-stream :
      (lists : List (List (RetrievalHit F)))
      → merge_lists floats [] 0 lists
        ≡ (merge_all [] (admitted_of lists), length (admitted_of lists))
  unfolding admitted_of
  merge_lists-stream lists =
      merge_lists_lem [] 0 lists
      ∙ pair_eq refl (omega (arith, length-take max_fusion_candidates (stream lists)))

module _ {F : Type 0} where
  pub length-admitted_of :
      (lists : List (List (RetrievalHit F))) → length (admitted_of lists) ≤ max_fusion_candidates
  unfolding admitted_of
  length-admitted_of lists = omega (arith, length-take max_fusion_candidates (stream lists))
