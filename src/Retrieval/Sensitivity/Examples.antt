-- ===== src/Retrieval/Sensitivity/Examples.antt =====
-- Concrete runs of the sensitivity filter.
use omni_sem.Base.{
  ◌≡◌, refl, none, arith, ℕ, ◌≢◌, ◌↔◌, inl, inr, List, [], ◌∷◌, codes, In, All, true, false,
  text_eq,
}
use omni_sem.Domain.{RetrievalQuery, RetrievalMode, ok}
use omni_sem.Freshness.{FileSystem}
use omni_sem.Retrieval.Pipeline.{Channels, PipelineConfig}
use omni_sem.Retrieval.Pipeline.Lexical.{allowed_candidates}
use omni_sem.Retrieval.Pipeline.Hidden.{Before, hidden_copy_hides_text}
use omni_sem.Domain.Names.{scope_from_str}
use omni_sem.Retrieval.Samples.{numbers, sample_candidate, ascii}
use omni_sem.Retrieval.Candidates.{RawCandidate}
use omni_sem.Retrieval.Sensitivity.{
  RootConfig, SensitivityIndex, load_sensitivity_sets, filter_sensitivity, load_from, load_tags,
  tag_set, get_root, match_text, component_text, components_text, join_slash,
}
use omni_sem.Retrieval.Sensitivity.Scope.{tags_of, is_require, is_never}
use omni_sem.Retrieval.Sensitivity.Filter.{Unrestricted, filter_sensitivity_iff}

abbrev roots : List RootConfig
roots =
    record {
      id = 1 ∷ [];
      sensitivity =
          record { pattern = codes "secret.md"; scope = codes "require_explicit_query" } ∷ [];
    }
    ∷ []

abbrev index : SensitivityIndex
index = load_sensitivity_sets ascii roots

abbrev secret : RawCandidate ℕ
secret = sample_candidate 1 (codes "secret.md") (codes "h1")

abbrev open_copy : RawCandidate ℕ
open_copy = sample_candidate 2 (codes "open.md") (codes "h1")

secret_is_restricted : ¬ Unrestricted ascii index secret
unfolding load_sensitivity_sets load_from load_tags tag_set scope_from_str get_root match_text
    component_text components_text join_slash tags_of text_eq is_never is_require
secret_is_restricted (inl h) = cc
secret_is_restricted (inr h) = cc

filter_sensitivity_iff_example :
    (In open_copy (filter_sensitivity ascii (secret ∷ open_copy ∷ []) index false)
      ↔ (In open_copy (secret ∷ open_copy ∷ []) × Unrestricted ascii index open_copy))
    × (In open_copy (filter_sensitivity ascii (secret ∷ open_copy ∷ []) index true)
        ↔ In open_copy (secret ∷ open_copy ∷ []))
filter_sensitivity_iff_example =
    filter_sensitivity_iff ascii index (secret ∷ open_copy ∷ []) open_copy

abbrev config : PipelineConfig
config = record { roots = roots; embeddings_enabled = false; embeddings_dimensions = 0 }

abbrev request : RetrievalQuery
request = record {
  query = codes "text";
  root_ids = [];
  file_types = [];
  mode = RetrievalMode.lexical;
  limit = 5;
  token_budget = 1_000;
  include_sensitive = false;
  budget_preset = none;
}

abbrev no_files : FileSystem
no_files = record { symlink_metadata = λ path. none; canonicalize = λ path. none }

abbrev nothing_stored : Channels ℕ
nothing_stored = record {
  search_fts = λ request parsed limit. ok [];
  snapshot_sources = λ request. ok [];
  snapshot_rows = λ source request parsed. ok [];
  active_space = ok none;
  linked = λ id. ok 0;
  normalize_vector = λ values. ok values;
  active_vectors = λ space. ok 0;
  vector_rows = λ space. ok [];
  error_text = λ e. [];
  domain_error_text = λ e. [];
  show_count = λ n. [];
}

abbrev other : RawCandidate ℕ
other = sample_candidate 3 (codes "other.md") []

other-Before : Before secret other
other-Before =
    (λ e. absurd (omega (arith, e)), λ e. let clash : [] ≡ secret.text_hash = e in absurd cc)

hidden_copy_hides_text_example :
    All
      (λ (k : RawCandidate ℕ). k.text_hash ≢ secret.text_hash)
      (allowed_candidates ascii numbers no_files nothing_stored config request
        (other ∷ secret ∷ open_copy ∷ []))
hidden_copy_hides_text_example =
    hidden_copy_hides_text ascii numbers no_files nothing_stored config request secret (other ∷ [])
      (open_copy ∷ []) refl (other-Before, tt) secret_is_restricted
