-- ===== src/Retrieval/Pipeline/Examples.antt =====
-- A concrete pipeline: two candidates, one of them restricted, no snapshot and no embedding space.
use omni_sem.Base.{some, ℕ, refl, true, false, none, [], ◌∷◌, Text, codes, All, arith, string_eq}
use omni_sem.Domain.{normal, RetrievalMode, RetrievalQuery, RetrievalResponse, Result, ok, err}
use omni_sem.Freshness.{FileSystem}
use omni_sem.Tokens.{estimate}
use omni_sem.Retrieval.Samples.{numbers, ascii, sample_candidate}
use omni_sem.Retrieval.Pack.Budget.{HasRoom}
use omni_sem.Retrieval.Pipeline.{VectorRow, ollama, EmbeddingProvider, Channels, PipelineConfig}
use omni_sem.Retrieval.Pipeline.Holds.{OkHolds}
use omni_sem.Retrieval.Pipeline.Modes.{retrieve}
use omni_sem.Retrieval.Pipeline.Bounded.{IsBounded, retrieve-IsBounded}
use omni_sem.Retrieval.Pipeline.Fallback.{FollowsLexical, retrieve-FollowsLexical}
use omni_sem.Retrieval.Pipeline.Shown.{IsShown}
use omni_sem.Retrieval.Pipeline.Confidential.{retrieve-IsShown}

abbrev no_files : FileSystem
no_files = record { symlink_metadata = λ path. none; canonicalize = λ path. none }

abbrev local_only : Channels ℕ
local_only = record {
  search_fts = λ request parsed limit. ok (
      sample_candidate 1 (codes "a.md") (codes "h1")
      ∷ sample_candidate 2 (codes "b.md") (codes "h2")
      ∷ []);
  snapshot_sources = λ request. ok [];
  snapshot_rows = λ source request parsed. ok [];
  active_space = ok none;
  linked = λ id. ok 0;
  normalize_vector = λ values. ok values;
  active_vectors = λ space. ok 0;
  vector_rows = λ space. ok [];
  error_text = λ e. codes "error";
  domain_error_text = λ e. codes "error";
  show_count = λ n. [];
}

abbrev auto_config : PipelineConfig
auto_config = record {
  roots =
      record {
        id = 1 ∷ [];
        sensitivity =
            record { pattern = codes "b.md"; scope = codes "require_explicit_query" } ∷ [];
      }
      ∷ [];
  embeddings_enabled = true;
  embeddings_dimensions = 0;
}

abbrev auto_request : RetrievalQuery
auto_request = record {
  query = codes "text";
  root_ids = [];
  file_types = [];
  mode = RetrievalMode.auto;
  limit = 5;
  token_budget = 1_000;
  include_sensitive = false;
  budget_preset = none;
}

room : HasRoom (codes "text") 1_000
unfolding estimate
room = omega arith

abbrev unconfigured : Result (Text × Text) (EmbeddingProvider ℕ)
unconfigured = err (codes "EMBEDDINGS_DISABLED", codes "no provider")

retrieve-IsBounded_example :
    OkHolds
      (IsBounded auto_request)
      (retrieve ascii numbers no_files local_only auto_config auto_request unconfigured)
retrieve-IsBounded_example =
    retrieve-IsBounded ascii numbers no_files local_only auto_config auto_request unconfigured
      (omega arith) room

-- A stored segment and its vector.
abbrev vector_row : Text → VectorRow
vector_row path = record {
  segment_id = ok 9;
  revision_id = ok 9;
  source_file_id = ok 9;
  root_id = ok 1;
  relative_path = normal path ∷ [];
  file_type = codes "markdown";
  anchor = [];
  text = codes "text";
  text_hash = path;
  root_path = [];
  modified_at = none;
  vector_bytes = 1 ∷ 0 ∷ 0 ∷ 0 ∷ [];
  dimensions = 1;
}

-- Two segments with vectors, one of them in the restricted note.
abbrev with_vectors : Channels ℕ
with_vectors = record local_only {
  active_space = ok (
      some record {
        id = codes "s";
        provider = codes "ollama";
        canonical_model = codes "m";
        model_digest = codes "d";
        dimensions = 1;
        normalization = codes "l2";
        input_contract_version = codes "segment-text-v1";
      });
  linked = λ id. ok 2;
  active_vectors = λ space. ok 2;
  vector_rows = λ space. ok (ok (vector_row (codes "a.md")) ∷ ok (vector_row (codes "b.md")) ∷ []);
}

abbrev provider : EmbeddingProvider ℕ
provider = record {
  provider_kind = ollama;
  resolve_model = ok record {
    provider = ollama;
    configured_name = codes "m";
    canonical_name = codes "m";
    model_digest = codes "d";
    dimensions = some 1;
  };
  embed = λ text model. ok ((1 ∷ []) ∷ []);
}

retrieve-IsShown_example :
    OkHolds
      (λ (r : RetrievalResponse ℕ). All (IsShown false) r.results)
      (retrieve ascii numbers no_files with_vectors auto_config auto_request (ok provider))
retrieve-IsShown_example =
    retrieve-IsShown ascii numbers no_files with_vectors auto_config auto_request (ok provider)
      (omega arith) (omega arith)

retrieve-FollowsLexical_example :
    FollowsLexical ascii numbers no_files local_only auto_config auto_request
      (retrieve ascii numbers no_files local_only auto_config auto_request unconfigured)
retrieve-FollowsLexical_example =
    retrieve-FollowsLexical ascii numbers no_files local_only auto_config auto_request unconfigured
      refl
