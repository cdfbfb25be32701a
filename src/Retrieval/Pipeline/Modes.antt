-- ===== src/Retrieval/Pipeline/Modes.antt =====
-- retrieval.rs: `retrieve` and `retrieve_with_runtime`, which choose the channels of a mode.
use omni_sem.Base.{Bool, true, false, Option, some, List, [], ◌∷◌, Text, codes, if◌then◌else◌}
use omni_sem.Domain.{RetrievalMode, RetrievalQuery, RetrievalResponse, Result, ok, err}
use omni_sem.Freshness.{FileSystem}
use omni_sem.Retrieval.Env.{Floats, Env}
use omni_sem.Retrieval.Pipeline.{
  RetrievalError, EmbeddingProvider, Channels, PipelineConfig, semantic_error, bounded_warning,
  default_telemetry,
}
use omni_sem.Retrieval.Pipeline.Lexical.{retrieve_lexical}
use omni_sem.Retrieval.Pipeline.Semantic.{SemanticChannel, semantic_hits, semantic_response}

-- Where the lexical channel alone is asked for.
abbrev pub is_lexical_only : RetrievalMode → Bool → Bool
is_lexical_only RetrievalMode.lexical enabled = true
is_lexical_only RetrievalMode.semantic enabled = false
is_lexical_only RetrievalMode.hybrid enabled = false
is_lexical_only RetrievalMode.auto enabled = if enabled then false else true

abbrev pub is_auto : RetrievalMode → Bool
is_auto RetrievalMode.auto = true
is_auto RetrievalMode.lexical = false
is_auto RetrievalMode.semantic = false
is_auto RetrievalMode.hybrid = false

module _ {F : Type 0} (env : Env) (floats : Floats F) (fs : FileSystem) (channels : Channels F)
    (config : PipelineConfig) where
  -- Lexical retrieval with the hits of the semantic channel.
  unfoldable pub with_channel :
      RetrievalQuery → SemanticChannel F → Result RetrievalError (RetrievalResponse F)
  unfolding retrieve_lexical
  with_channel request channel =
      retrieve_lexical env floats fs channels config request request.mode channel.hits
        channel.warnings channel.telemetry

  -- Lexical retrieval alone, with the warnings given.
  unfoldable pub without_channel :
      RetrievalQuery → List Text → Result RetrievalError (RetrievalResponse F)
  unfolding retrieve_lexical
  without_channel request warnings =
      retrieve_lexical env floats fs channels config request request.mode [] warnings
        (default_telemetry floats)

  unfoldable pub retrieve_hybrid :
      RetrievalQuery → Option (EmbeddingProvider F) → Result RetrievalError (RetrievalResponse F)
  unfolding with_channel
  retrieve_hybrid request provider =
      elim (semantic_hits env floats fs channels config request provider) [
        | err e ↦ err e
        | ok channel ↦ with_channel request channel
      ]

  unfoldable pub retrieve_auto :
      RetrievalQuery → Option (EmbeddingProvider F) → Result RetrievalError (RetrievalResponse F)
  unfolding with_channel without_channel bounded_warning
  retrieve_auto request provider =
      elim (semantic_hits env floats fs channels config request provider) [
        | err e ↦ without_channel request (
            bounded_warning (codes "semantic channel unavailable; using lexical")
              (channels.error_text e)
            ∷ [])
        | ok channel ↦ with_channel request channel
      ]

  unfoldable pub retrieve_in_mode :
      RetrievalMode
      → RetrievalQuery
      → Option (EmbeddingProvider F)
      → Result RetrievalError (RetrievalResponse F)
  unfolding retrieve_hybrid retrieve_auto
  retrieve_in_mode RetrievalMode.lexical request provider = without_channel request []
  retrieve_in_mode RetrievalMode.semantic request provider =
      semantic_response env floats fs channels config request provider
  retrieve_in_mode RetrievalMode.hybrid request provider = retrieve_hybrid request provider
  retrieve_in_mode RetrievalMode.auto request provider = retrieve_auto request provider

  unfoldable pub retrieve_with_runtime :
      RetrievalQuery → Option (EmbeddingProvider F) → Result RetrievalError (RetrievalResponse F)
  unfolding retrieve_in_mode
  retrieve_with_runtime request provider = retrieve_in_mode request.mode request provider

  -- `configured_provider` is the provider or the code and message of its error; the other argument
  -- is the text of that error.
  unfoldable pub retrieve :
      RetrievalQuery
      → Result (Text × Text) (EmbeddingProvider F)
      → Result RetrievalError (RetrievalResponse F)
  unfolding without_channel bounded_warning semantic_error
  retrieve request configured_provider =
      if is_lexical_only request.mode config.embeddings_enabled
      then without_channel request []
      else elim configured_provider [
        | ok provider ↦ retrieve_with_runtime request (some provider)
        | err (code, message) ↦
            if is_auto request.mode
            then without_channel request
                (bounded_warning (codes "semantic channel unavailable") message ∷ [])
            else err (semantic_error code message)
      ]
