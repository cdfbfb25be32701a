-- ===== src/Retrieval/Pipeline/Fallback.antt =====
-- The automatic mode fails only where lexical retrieval fails.
use omni_sem.Base.{
  ◌≡◌, refl, sym, subst, ◌⊎◌, inl, inr, Option, some, List, [], ◌∷◌, Text, codes, if◌then◌else◌,
  if-Holds,
}
use omni_sem.Domain.{
  RetrievalMode, RetrievalQuery, RetrievalHit, RetrievalResponse, RetrievalTelemetry, Result, ok,
  err, Result-cases,
}
use omni_sem.QueryParse.{ParsedQuery}
use omni_sem.Freshness.{FileSystem}
use omni_sem.Retrieval.Env.{Floats, Env}
use omni_sem.Retrieval.Candidates.{RawCandidate}
use omni_sem.Retrieval.Pipeline.{
  RetrievalError, EmbeddingProvider, Channels, PipelineConfig, bounded_warning, default_telemetry,
  semantic_error,
}
use omni_sem.Retrieval.Pipeline.Lexical.{
  respond, lexical_candidates, lexical_response, retrieve_lexical,
}
use omni_sem.Retrieval.Pipeline.Semantic.{semantic_hits}
use omni_sem.Retrieval.Pipeline.Modes.{
  with_channel, without_channel, retrieve_auto, retrieve_in_mode, retrieve_with_runtime,
  is_lexical_only, is_auto, retrieve,
}

module _ {F : Type 0} (env : Env) (floats : Floats F) (fs : FileSystem) (channels : Channels F)
    (config : PipelineConfig) (request : RetrievalQuery) where
  -- The result fails exactly as the parsing of the query and the full-text search do.
  abbrev pub FollowsLexical : Result RetrievalError (RetrievalResponse F) → Type 0
  FollowsLexical r =
      ((e : RetrievalError) × (lexical_candidates env floats fs channels config request ≡ err e)
        × (r ≡ err e))
      ⊎ ((found : ParsedQuery × List (RawCandidate F)) × (response : RetrievalResponse F)
          × (lexical_candidates env floats fs channels config request ≡ ok found)
          × (r ≡ ok response)
          × (response.requested_mode ≡ request.mode))

  retrieve_lexical-FollowsLexical :
      (semantic : List (RetrievalHit F)) (warnings : List Text) (telemetry : RetrievalTelemetry F)
      → FollowsLexical (
          retrieve_lexical env floats fs channels config request request.mode semantic warnings
            telemetry)
  unfolding retrieve_lexical lexical_response respond
  retrieve_lexical-FollowsLexical semantic warnings telemetry =
      elim (Result-cases (lexical_candidates env floats fs channels config request)) [
        | inl (e, failed) ↦ inl (e, failed, rw (retrieve_lexical, failed) refl)
        | inr ((parsed, candidates), found) ↦ inr (
          (parsed, candidates),
          lexical_response env floats fs channels config request request.mode parsed candidates
              semantic warnings telemetry,
          found,
          rw (retrieve_lexical, found) refl,
          refl,
        )
      ]

  alone :
      (warnings : List Text)
      → FollowsLexical (without_channel env floats fs channels config request warnings)
  unfolding without_channel
  alone warnings = retrieve_lexical-FollowsLexical [] warnings (default_telemetry floats)

  retrieve_auto-FollowsLexical :
      (provider : Option (EmbeddingProvider F))
      → FollowsLexical (retrieve_auto env floats fs channels config request provider)
  unfolding retrieve_auto with_channel
  retrieve_auto-FollowsLexical provider =
      elim (Result-cases (semantic_hits env floats fs channels config request provider)) [
        | inl (e, failed) ↦
            let warning =
              bounded_warning (codes "semantic channel unavailable; using lexical")
                (channels.error_text e) in
            let eq : retrieve_auto env floats fs channels config request provider
                ≡ without_channel env floats fs channels config request (warning ∷ []) =
              rw (retrieve_auto, failed) refl in
            subst FollowsLexical (sym eq) (alone (warning ∷ []))
        | inr (channel, found) ↦
            let eq : retrieve_auto env floats fs channels config request provider
                ≡ with_channel env floats fs channels config request channel =
              rw (retrieve_auto, found) refl in
            subst FollowsLexical (sym eq)
              (retrieve_lexical-FollowsLexical channel.hits channel.warnings channel.telemetry)
      ]

  -- A request in the automatic mode fails exactly where the parsing of the query or the full-text
  -- search fails, with that error, and otherwise gives a response, whether the embedding provider can be
  -- configured or not, and whatever the semantic channel answers.
  pub retrieve-FollowsLexical :
      (configured : Result (Text × Text) (EmbeddingProvider F))
      → request.mode ≡ RetrievalMode.auto
      → FollowsLexical (retrieve env floats fs channels config request configured)
  unfolding retrieve retrieve_with_runtime retrieve_in_mode
  retrieve-FollowsLexical (ok provider) auto =
      subst
        (λ m. FollowsLexical (
          if is_lexical_only m config.embeddings_enabled
          then without_channel env floats fs channels config request []
          else retrieve_in_mode env floats fs channels config m request (some provider)))
        (sym auto)
        (if-Holds FollowsLexical (is_lexical_only RetrievalMode.auto config.embeddings_enabled)
          (without_channel env floats fs channels config request [])
          (retrieve_auto env floats fs channels config request (some provider)) (alone [])
          (retrieve_auto-FollowsLexical (some provider)))
  retrieve-FollowsLexical (err (code, message)) auto =
      let warned =
        without_channel env floats fs channels config request
          (bounded_warning (codes "semantic channel unavailable") message ∷ []) in
      subst
        (λ m. FollowsLexical (
          if is_lexical_only m config.embeddings_enabled
          then without_channel env floats fs channels config request []
          else if is_auto m
          then warned
          else err (semantic_error code message)))
        (sym auto)
        (if-Holds FollowsLexical (is_lexical_only RetrievalMode.auto config.embeddings_enabled)
          (without_channel env floats fs channels config request []) warned (alone [])
          (alone (bounded_warning (codes "semantic channel unavailable") message ∷ [])))
