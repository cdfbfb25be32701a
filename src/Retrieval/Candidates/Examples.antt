-- ===== src/Retrieval/Candidates/Examples.antt =====
-- Concrete runs of the suppression of duplicates.
use omni_sem.Base.{ℕ, ◌≡◌, refl, List, [], ◌∷◌, codes, In, All, Distinct, text_eq, arith}
use omni_sem.Retrieval.Samples.{sample_candidate}
use omni_sem.Retrieval.Candidates.{RawCandidate, suppress_duplicates, suppress_from}
use omni_sem.Retrieval.Candidates.Distinct.{Subsequence, suppress_duplicates_lem}

abbrev candidates : List (RawCandidate ℕ)
candidates =
    sample_candidate 1 (codes "a.md") (codes "h1")
    ∷ sample_candidate 2 (codes "b.md") (codes "h1")
    ∷ sample_candidate 3 (codes "c.md") (codes "h3")
    ∷ []

one_dropped :
    suppress_duplicates candidates
    ≡ sample_candidate 1 (codes "a.md") (codes "h1")
      ∷ sample_candidate 3 (codes "c.md") (codes "h3")
      ∷ []
unfolding suppress_duplicates suppress_from text_eq
one_dropped = refl

segments_differ : Distinct (λ (c : RawCandidate ℕ). c.segment_id) candidates
segments_differ = (
  ((λ e. omega (arith, e)), ((λ e. omega (arith, e)), tt)),
  (((λ e. omega (arith, e)), tt), (tt, tt)),
)

suppress_duplicates_lem_example :
    Subsequence (suppress_duplicates candidates) candidates
    × Distinct (λ (c : RawCandidate ℕ). c.segment_id) (suppress_duplicates candidates)
    × Distinct (λ (c : RawCandidate ℕ). c.text_hash) (suppress_duplicates candidates)
    × All
        (λ (c : RawCandidate ℕ).
          (k : RawCandidate ℕ) × In k (suppress_duplicates candidates)
          × (k.text_hash ≡ c.text_hash))
        candidates
suppress_duplicates_lem_example = suppress_duplicates_lem candidates segments_differ
