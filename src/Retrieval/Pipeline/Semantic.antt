-- ===== src/Retrieval/Pipeline/Semantic.antt =====
-- retrieval.rs: the semantic channel, and the response of the semantic mode.
use omni_sem.Base.{
  ℕ, Bool, true, false, not, ◌&&◌, ◌||◌, Option, none, some, List, [], ◌∷◌, ◌++◌, Text, codes,
  text_eq, ltb, ◌==◌, if◌then◌else◌, filter, is_empty, length, to_u32, trim_matches,
}
use omni_sem.Domain.{
  RetrievalMode, RetrievalQuery, RetrievalHit, RetrievalTelemetry, RetrievalResponse, Result, ok,
  err, ◌>>=◌,
}
use omni_sem.QueryParse.{max_query_chars}
use omni_sem.Retrieval.Env.{Floats, Env}
use omni_sem.Retrieval.Pack.{pack_results}
use omni_sem.Retrieval.Pipeline.{
  RetrievalError, storage, EmbeddingProviderKind, absent, ollama, ResolvedEmbeddingModel,
  EmbeddingSpace, EmbeddingProvider, VectorSearchReport, Channels, PipelineConfig, semantic_error,
  default_telemetry, max_semantic_candidates,
}
use omni_sem.Freshness.{FileSystem}
use omni_sem.Retrieval.Pipeline.Vectors.{vector_search}
use omni_sem.Retrieval.Pipeline.Lexical.{respond}

pub record SemanticChannel (F : Type 0) : Type 0 where
  pub hits : List (RetrievalHit F)
  pub warnings : List Text
  pub telemetry : RetrievalTelemetry F

abbrev pub same_kind : EmbeddingProviderKind → EmbeddingProviderKind → Bool
same_kind absent absent = true
same_kind absent ollama = false
same_kind ollama absent = false
same_kind ollama ollama = true

-- Passes, or fails with a semantic error.
abbrev require {ℓ} :
    {A : Type ℓ} → Bool → Text → Text → Result RetrievalError A → Result RetrievalError A
require true code message rest = rest
require false code message rest = err (semantic_error code message)

-- The control characters that count.
abbrev pub is_counted_control : Env → ℕ → Bool
is_counted_control env c = env.is_control c && not ((c == 10) || (c == 13) || (c == 9))

unfoldable pub validate_query_text : Env → Text → Result RetrievalError Text
unfolding trim_matches semantic_error
validate_query_text env query =
    let trimmed = trim_matches env.is_whitespace query in
    if is_empty trimmed
    then err (semantic_error (codes "QUERY_INVALID") (codes "query is empty"))
    else if ltb max_query_chars (length trimmed)
    then err (
        semantic_error (codes "QUERY_INVALID")
          (codes "query exceeds the configured character bound"))
    else if ltb 8 (length (filter (is_counted_control env) trimmed))
    then err (
        semantic_error (codes "QUERY_INVALID") (codes "query contains too many control characters"))
    else ok trimmed

unfoldable pub load_active_space : {F : Type 0} → Channels F → Result RetrievalError EmbeddingSpace
unfolding semantic_error
load_active_space channels = elim channels.active_space [
  | err message ↦ err (storage message)
  | ok row ↦ elim row [
    | none ↦ err (
        semantic_error (codes "EMBEDDING_SPACE_MISSING")
          (codes "no active embedding space; run omnisem index"))
    | some r ↦
        if not (text_eq r.provider (codes "ollama"))
          || not (text_eq r.normalization (codes "l2"))
          || not (text_eq r.input_contract_version (codes "segment-text-v1"))
        then err (
            semantic_error (codes "EMBEDDING_SPACE_INCOMPATIBLE")
              (codes "active embedding-space contract is unsupported"))
        else ok (record {
          id = r.id;
          provider = ollama;
          canonical_model = r.canonical_model;
          model_digest = r.model_digest;
          dimensions = r.dimensions;
          input_contract_version = r.input_contract_version;
        })
  ]
]

-- `model.dimensions.is_some_and(|dimensions| dimensions != space.dimensions)`, negated.
abbrev pub fits_dimensions : Option ℕ → ℕ → Bool
fits_dimensions none dimensions = true
fits_dimensions (some d) dimensions = d == dimensions

module _ {F : Type 0} (env : Env) (floats : Floats F) (fs : FileSystem) (channels : Channels F)
    (config : PipelineConfig) where
  -- What is checked before the provider is asked.
  unfoldable pub check_space :
      EmbeddingProvider F → EmbeddingSpace → Result RetrievalError EmbeddingSpace
  unfolding semantic_error
  check_space provider space =
      require (same_kind provider.provider_kind space.provider)
        (codes "EMBEDDING_SPACE_INCOMPATIBLE")
        (codes "configured provider differs from active space")
        (require
          ((config.embeddings_dimensions == 0)
            || (config.embeddings_dimensions == space.dimensions))
          (codes "EMBEDDING_SPACE_INCOMPATIBLE")
          (codes "configured dimensions differ from active space; run omnisem index")
          (elim (channels.linked space.id) [
            | err message ↦ err (storage message)
            | ok linked ↦
                require (not (linked == 0)) (codes "SEMANTIC_UNAVAILABLE")
                  (codes "active embedding space has no linked active segments; run omnisem index")
                  (ok space)
          ]))

  -- What is checked of the model.
  unfoldable pub check_model :
      ResolvedEmbeddingModel → EmbeddingSpace → Result RetrievalError EmbeddingSpace
  unfolding semantic_error
  check_model model space =
      require
        (same_kind model.provider space.provider
          && text_eq model.canonical_name space.canonical_model)
        (codes "EMBEDDING_SPACE_INCOMPATIBLE")
        (codes "resolved model identity differs from active space; run omnisem index")
        (require (text_eq model.model_digest space.model_digest) (codes "EMBEDDING_MODEL_CHANGED")
          (codes "configured model digest changed; run omnisem index")
          (require (fits_dimensions model.dimensions space.dimensions)
            (codes "EMBEDDING_SPACE_INCOMPATIBLE")
            (codes "configured dimensions differ from active space; run omnisem index") (ok space)))

  -- The one vector of the batch.
  abbrev only : List (List F) → Result RetrievalError (List F)
  only (values ∷ []) = ok values
  only [] = err (
      semantic_error (codes "QUERY_EMBEDDING_FAILED")
        (codes "provider returned an invalid query-vector count"))
  only (a ∷ b ∷ rest) = err (
      semantic_error (codes "QUERY_EMBEDDING_FAILED")
        (codes "provider returned an invalid query-vector count"))

  -- The error of a provider as a semantic error with another code.
  abbrev failed_embedding {ℓ} : {A : Type ℓ} → Result (Text × Text) A → Result RetrievalError A
  failed_embedding (ok a) = ok a
  failed_embedding (err (code, message)) =
      err (semantic_error (codes "QUERY_EMBEDDING_FAILED") message)

  abbrev failed_resolution {ℓ} : {A : Type ℓ} → Result (Text × Text) A → Result RetrievalError A
  failed_resolution (ok a) = ok a
  failed_resolution (err (code, message)) = err (semantic_error code message)

  unfoldable pub embed_query :
      EmbeddingProvider F → EmbeddingSpace → Text → Result RetrievalError (List F)
  unfolding semantic_error check_model
  embed_query provider space query = failed_resolution provider.resolve_model >>= (λ model.
      check_model model space >>= (λ checked.
        failed_embedding (provider.embed query model)
        >>= only
        >>= (λ values. failed_embedding (channels.normalize_vector values))
        >>= (λ vector.
            require (length vector == space.dimensions) (codes "EMBEDDING_SPACE_INCOMPATIBLE")
              (codes "query-vector dimensions differ from active space") (ok vector))))

  -- The channel of a search report.
  unfoldable pub channel_of : VectorSearchReport F → SemanticChannel F
  channel_of report = record {
    hits = report.hits;
    warnings =
        if report.corrupt_excluded == 0
        then []
        else (channels.show_count report.corrupt_excluded
            ++ codes " corrupt vectors excluded from semantic search")
          ∷ [];
    telemetry = record (default_telemetry floats) {
      active_vectors_examined = report.examined;
      corrupt_vectors_excluded = report.corrupt_excluded;
      semantic_candidates = to_u32 (length report.hits);
    };
  }

  unfoldable pub semantic_hits :
      RetrievalQuery → Option (EmbeddingProvider F) → Result RetrievalError (SemanticChannel F)
  unfolding validate_query_text load_active_space check_space embed_query channel_of semantic_error
      vector_search
  semantic_hits request embedding_provider = validate_query_text env request.query >>= (λ query.
      elim embedding_provider [
        | none ↦ err (
            semantic_error (codes "SEMANTIC_UNAVAILABLE")
              (codes "embedding provider is unavailable"))
        | some provider ↦ load_active_space channels >>= check_space provider >>= (λ space.
            embed_query provider space query >>= (λ vector.
              vector_search env floats fs channels config space vector request
                max_semantic_candidates
              >>= (λ report. ok (channel_of report))))
      ])

  unfoldable pub semantic_response :
      RetrievalQuery → Option (EmbeddingProvider F) → Result RetrievalError (RetrievalResponse F)
  unfolding semantic_hits respond
  semantic_response request embedding_provider = elim (semantic_hits request embedding_provider) [
    | err e ↦ err e
    | ok channel ↦ ok (
        respond request request.mode RetrievalMode.semantic (codes "cosine_similarity") 0
          channel.telemetry
          (pack_results request.query channel.hits request.limit request.token_budget
            channel.warnings))
  ]
