-- ===== src/Retrieval/Pack/Examples.antt =====
-- Concrete runs of the packing of results.
use omni_sem.Base.{ℕ, ◌≤◌, ◌<◌, ◌≡◌, ◌⊎◌, ◌↔◌, false, List, [], ◌∷◌, codes, length, arith}
use omni_sem.Domain.{RetrievalHit, local_index}
use omni_sem.Tokens.{hard_byte_cap, estimate_response_tokens, estimate}
use omni_sem.Retrieval.Samples.{sample_hit}
use omni_sem.Retrieval.Pack.{pack_results, Packed}
use omni_sem.Retrieval.Pack.Budget.{pack_results-budget, texts, text_bytes, HasRoom}
use omni_sem.Retrieval.Pack.Prefix.{pack_results-prefix, Prefix}

abbrev hits : List (RetrievalHit ℕ)
hits =
    sample_hit 1 (codes "first text") (codes "h1") local_index
    ∷ sample_hit 2 (codes "second text") (codes "h2") local_index
    ∷ []

abbrev packed : Packed ℕ
packed = pack_results (codes "query") hits 5 30 []

room : HasRoom (codes "query") 30
unfolding estimate
room = omega arith

pack_results-budget_example :
    (length packed.results ≤ 5)
    × (estimate_response_tokens (codes "query") (texts packed.results) ≤ 30)
    × (text_bytes (texts packed.results) ≤ hard_byte_cap)
    × (packed.warnings ≡ [])
pack_results-budget_example = pack_results-budget (codes "query") hits 5 30 [] (omega arith) room

pack_results-prefix_example :
    Prefix packed.results hits
    × ((length hits ≡ 0) ⊎ (0 < length packed.results))
    × ((packed.truncated ≡ false) ↔ ((length packed.results ≡ length hits) × (length hits < 5)))
pack_results-prefix_example =
    pack_results-prefix (codes "query") hits 5 30 [] (omega arith) (omega arith)
