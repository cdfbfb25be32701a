-- ===== src/Retrieval/Fusion/Examples.antt =====
-- A concrete fusion: a local hit and a snapshot's hit with the same text hash, and one more.
use omni_sem.Base.{ℕ, List, [], ◌∷◌, codes}
use omni_sem.Domain.{RetrievalHit, local_index, snapshot}
use omni_sem.Retrieval.Samples.{sample_hit, numbers}
use omni_sem.Retrieval.Fusion.{rrf_merge}
use omni_sem.Retrieval.Fusion.Stream.{admitted_of}
use omni_sem.Retrieval.Fusion.Merged.{IsFusionOf, rrf_merge_lem}

abbrev lists : List (List (RetrievalHit ℕ))
lists =
    (sample_hit 7 (codes "shared") (codes "h1") (snapshot (codes "s") (codes "root")) ∷ [])
    ∷ (sample_hit 1 (codes "shared") (codes "h1") local_index
        ∷ sample_hit 2 (codes "other") (codes "h2") local_index
        ∷ [])
    ∷ []

rrf_merge_lem_example : IsFusionOf numbers (admitted_of lists) (rrf_merge numbers lists)
rrf_merge_lem_example = rrf_merge_lem numbers lists
