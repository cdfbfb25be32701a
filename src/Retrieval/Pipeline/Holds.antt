-- ===== src/Retrieval/Pipeline/Holds.antt =====
-- What holds of the lexical and the semantic responses holds of every response of `retrieve`.
use omni_sem.Base.{◌≡◌, inl, inr, Option, some, List, [], ◌∷◌, Text, codes, if◌then◌else◌, if-Holds}
use omni_sem.Domain.{
  ◌>>=◌, RetrievalMode, RetrievalQuery, RetrievalHit, RetrievalResponse, RetrievalTelemetry, Result,
  ok, err, Result-cases,
}
use omni_sem.QueryParse.{ParsedQuery}
use omni_sem.Freshness.{FileSystem}
use omni_sem.Retrieval.Env.{Floats, Env}
use omni_sem.Retrieval.Candidates.{RawCandidate}
use omni_sem.Retrieval.Pack.{pack_results}
use omni_sem.Retrieval.Pipeline.{
  EmbeddingProvider, Channels, PipelineConfig, bounded_warning, default_telemetry, semantic_error,
}
use omni_sem.Retrieval.Pipeline.Lexical.{
  respond, lexical_candidates, lexical_response, retrieve_lexical,
}
use omni_sem.Retrieval.Pipeline.Semantic.{SemanticChannel, semantic_hits, semantic_response}
use omni_sem.Retrieval.Pipeline.Modes.{
  with_channel, without_channel, retrieve_hybrid, retrieve_auto, retrieve_in_mode,
  retrieve_with_runtime, is_lexical_only, is_auto, retrieve,
}

-- An error, or a response with the property.
abbrev pub OkHolds {ℓ κ μ} : {E : Type ℓ} {A : Type κ} → (A → Type μ) → Result E A → Type μ
OkHolds P (err e) = Unit
OkHolds P (ok a) = P a

-- A bind has the property where its last step has it.
pub bind-OkHolds {ℓ κ μ ν} :
    {E : Type ℓ} {A : Type κ} {B : Type μ} (P : B → Type ν) (r : Result E A) (f : A → Result E B)
    → ((a : A) → OkHolds P (f a))
    → OkHolds P (r >>= f)
bind-OkHolds P (err e) f h = tt
bind-OkHolds P (ok a) f h = h a

-- A step that has one property is followed by one that then has the other.
pub then-OkHolds {ℓ κ μ ν ξ} :
    {E : Type ℓ} {A : Type κ} {B : Type μ} (Q : A → Type ν) (P : B → Type ξ) (r : Result E A)
    (f : A → Result E B)
    → OkHolds Q r
    → ((a : A) → Q a → OkHolds P (f a))
    → OkHolds P (r >>= f)
then-OkHolds Q P (err e) f q h = tt
then-OkHolds Q P (ok a) f q h = h a q

module _ {F : Type 0} (env : Env) (floats : Floats F) (fs : FileSystem) (channels : Channels F)
    (config : PipelineConfig) (request : RetrievalQuery) (S : List (RetrievalHit F) → Type 0)
    (nothing : S [])
    (found : (provider : Option (EmbeddingProvider F)) (channel : SemanticChannel F)
      → semantic_hits env floats fs channels config request provider ≡ ok channel
      → S channel.hits)
    (P : RetrievalResponse F → Type 0)
    (lexical : (requested : RetrievalMode) (parsed : ParsedQuery)
        (candidates : List (RawCandidate F)) (semantic : List (RetrievalHit F))
        (warnings : List Text) (telemetry : RetrievalTelemetry F)
      → S semantic
      → P (
          lexical_response env floats fs channels config request requested parsed candidates
            semantic warnings telemetry))
    (semantic : (channel : SemanticChannel F)
      → S channel.hits
      → P (
          respond request request.mode RetrievalMode.semantic
            (codes "cosine_similarity")
            0
            channel.telemetry
            (pack_results request.query channel.hits request.limit request.token_budget
              channel.warnings))) where
  retrieve_lexical-OkHolds :
      (requested : RetrievalMode) (hits : List (RetrievalHit F)) (warnings : List Text)
      (telemetry : RetrievalTelemetry F)
      → S hits
      → OkHolds P
          (retrieve_lexical env floats fs channels config request requested hits warnings telemetry)
  unfolding retrieve_lexical
  retrieve_lexical-OkHolds requested hits warnings telemetry h =
      elim (Result-cases (lexical_candidates env floats fs channels config request)) [
        | inl (e, failed) ↦ rw (retrieve_lexical, failed) tt
        | inr ((parsed, candidates), ran) ↦
            rw (retrieve_lexical, ran)
              (lexical requested parsed candidates hits warnings telemetry h)
      ]

  without_channel-OkHolds :
      (warnings : List Text)
      → OkHolds P (without_channel env floats fs channels config request warnings)
  unfolding without_channel
  without_channel-OkHolds warnings =
      retrieve_lexical-OkHolds request.mode [] warnings (default_telemetry floats) nothing

  with_channel-OkHolds :
      (channel : SemanticChannel F)
      → S channel.hits
      → OkHolds P (with_channel env floats fs channels config request channel)
  unfolding with_channel
  with_channel-OkHolds channel h =
      retrieve_lexical-OkHolds request.mode channel.hits channel.warnings channel.telemetry h

  retrieve_in_mode-OkHolds :
      (mode : RetrievalMode) (provider : Option (EmbeddingProvider F))
      → OkHolds P (retrieve_in_mode env floats fs channels config mode request provider)
  unfolding retrieve_in_mode retrieve_hybrid retrieve_auto semantic_response
  retrieve_in_mode-OkHolds RetrievalMode.lexical provider = without_channel-OkHolds []
  retrieve_in_mode-OkHolds RetrievalMode.semantic provider =
      elim (Result-cases (semantic_hits env floats fs channels config request provider)) [
        | inl (e, failed) ↦ rw (semantic_response, failed) tt
        | inr (channel, ran) ↦
            rw (semantic_response, ran) (semantic channel (found provider channel ran))
      ]
  retrieve_in_mode-OkHolds RetrievalMode.hybrid provider =
      elim (Result-cases (semantic_hits env floats fs channels config request provider)) [
        | inl (e, failed) ↦ rw (retrieve_hybrid, failed) tt
        | inr (channel, ran) ↦
            rw (retrieve_hybrid, ran) (with_channel-OkHolds channel (found provider channel ran))
      ]
  retrieve_in_mode-OkHolds RetrievalMode.auto provider =
      elim (Result-cases (semantic_hits env floats fs channels config request provider)) [
        | inl (e, failed) ↦
            rw (retrieve_auto, failed)
              (without_channel-OkHolds (
                bounded_warning (codes "semantic channel unavailable; using lexical")
                  (channels.error_text e)
                ∷ []))
        | inr (channel, ran) ↦
            rw (retrieve_auto, ran) (with_channel-OkHolds channel (found provider channel ran))
      ]

  pub retrieve-OkHolds :
      (configured : Result (Text × Text) (EmbeddingProvider F))
      → OkHolds P (retrieve env floats fs channels config request configured)
  unfolding retrieve retrieve_with_runtime
  retrieve-OkHolds (ok provider) =
      if-Holds (OkHolds P) (is_lexical_only request.mode config.embeddings_enabled)
        (without_channel env floats fs channels config request [])
        (retrieve_in_mode env floats fs channels config request.mode request (some provider))
        (without_channel-OkHolds []) (retrieve_in_mode-OkHolds request.mode (some provider))
  retrieve-OkHolds (err (code, message)) =
      let alone =
        without_channel env floats fs channels config request
          (bounded_warning (codes "semantic channel unavailable") message ∷ []) in
      if-Holds (OkHolds P) (is_lexical_only request.mode config.embeddings_enabled)
        (without_channel env floats fs channels config request [])
        (if is_auto request.mode then alone else err (semantic_error code message))
        (without_channel-OkHolds [])
        (if-Holds (OkHolds P) (is_auto request.mode) alone (err (semantic_error code message))
          (without_channel-OkHolds
            (bounded_warning (codes "semantic channel unavailable") message ∷ []))
          tt)
