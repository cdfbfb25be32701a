-- ===== src/Retrieval/Pipeline/Confidential.antt =====
-- Without opting in no response shows a restricted hit.
use omni_sem.Base.{
  sym, ap, subst, Bool, Option, none, some, List, [], ◌∷◌, Text, codes, ◌<◌, ◌≤◌, u32_max, All,
}
use omni_sem.Domain.{RetrievalQuery, RetrievalHit, RetrievalResponse, Result, ok, err, ◌>>=◌}
use omni_sem.QueryParse.{ParsedQuery}
use omni_sem.Freshness.{FileSystem}
use omni_sem.Retrieval.Env.{Floats, Env}
use omni_sem.Retrieval.Candidates.{RawCandidate, suppress_duplicates}
use omni_sem.Retrieval.Sensitivity.{load_sensitivity_sets}
use omni_sem.Retrieval.Sensitivity.Filter.{filter_sensitivity-visible}
use omni_sem.Retrieval.Pack.{pack_results}
use omni_sem.Retrieval.Pack.Prefix.{Prefix, pack_results-prefix}
use omni_sem.Retrieval.Pipeline.{
  semantic_error, EmbeddingSpace, EmbeddingProvider, Channels, PipelineConfig,
  max_semantic_candidates,
}
use omni_sem.Retrieval.Pipeline.Holds.{OkHolds, bind-OkHolds, then-OkHolds, retrieve-OkHolds}
use omni_sem.Retrieval.Pipeline.Vectors.{vector_search}
use omni_sem.Retrieval.Pipeline.Vectors.Shown.{ReportShown, vector_search-Shown}
use omni_sem.Retrieval.Pipeline.Lexical.{
  respond, local_hits, allowed_candidates, fused_hits, lexical_response,
}
use omni_sem.Retrieval.Pipeline.Semantic.{
  SemanticChannel, validate_query_text, load_active_space, check_space, embed_query, channel_of,
  semantic_hits,
}
use omni_sem.Retrieval.Pipeline.Modes.{retrieve}
use omni_sem.Retrieval.Pipeline.Shown.{
  ScopeShown, IsShown, local_hits-IsShown, federate_with_snapshots-Fused,
}

Prefix-IsShown :
    {F : Type 0} (include : Bool) (results hits : List (RetrievalHit F))
    → Prefix results hits
    → All (IsShown include) hits
    → All (IsShown include) results
Prefix-IsShown include [] hits p h = tt
Prefix-IsShown include (r ∷ results) [] p h = absurd p
Prefix-IsShown {F} include (r ∷ results) (hit ∷ hits) (same, p) (q, h) = (
  subst (ScopeShown include) (sym (ap (λ (x : RetrievalHit F). x.sensitivity_scope) same.same)) q,
  Prefix-IsShown include results hits p h,
)

module _ {F : Type 0} (env : Env) (floats : Floats F) (fs : FileSystem) (channels : Channels F)
    (config : PipelineConfig) (request : RetrievalQuery) where
  abbrev Shows : SemanticChannel F → Type 0
  Shows c = All (IsShown request.include_sensitive) c.hits

  semantic_hits-Shown :
      (provider : Option (EmbeddingProvider F))
      → OkHolds Shows (semantic_hits env floats fs channels config request provider)
  unfolding semantic_hits channel_of
  semantic_hits-Shown none =
      bind-OkHolds Shows (validate_query_text env request.query)
        (λ query. err (
          semantic_error (codes "SEMANTIC_UNAVAILABLE")
            (codes "embedding provider is unavailable")))
        (λ query. tt)
  semantic_hits-Shown (some provider) =
      let search = λ (space : EmbeddingSpace) (vector : List F).
        vector_search env floats fs channels config space vector request max_semantic_candidates
        >>= (λ report. ok (channel_of env floats fs channels config report)) in
      let embed = λ (query : Text) (space : EmbeddingSpace).
        embed_query env floats fs channels config provider space query >>= search space in
      bind-OkHolds Shows (validate_query_text env request.query)
        (λ query.
          load_active_space channels
          >>= check_space env floats fs channels config provider
          >>= embed query)
        (λ query.
          bind-OkHolds Shows
            (load_active_space channels >>= check_space env floats fs channels config provider)
            (embed query)
            (λ space.
              bind-OkHolds Shows (embed_query env floats fs channels config provider space query)
                (search space)
                (λ vector.
                  then-OkHolds (ReportShown env floats fs channels config request space vector)
                    Shows
                    (vector_search env floats fs channels config space vector request
                      max_semantic_candidates)
                    (λ report. ok (channel_of env floats fs channels config report))
                    (vector_search-Shown env floats fs channels config request space vector
                      max_semantic_candidates)
                    (λ report shown. shown))))

  fused_hits-Shown :
      (parsed : ParsedQuery) (candidates : List (RawCandidate F)) (semantic : List (RetrievalHit F))
      (warnings : List Text)
      → All (IsShown request.include_sensitive) semantic
      → All
          (IsShown request.include_sensitive)
          (fused_hits env floats fs channels config request parsed candidates semantic
            warnings).0.hits
  unfolding fused_hits allowed_candidates
  fused_hits-Shown parsed candidates semantic warnings h =
      let index = load_sensitivity_sets env config.roots in
      let allowed = allowed_candidates env floats fs channels config request candidates in
      federate_with_snapshots-Fused env floats channels index request parsed
        (local_hits env floats fs index parsed 0 allowed) warnings semantic
        (local_hits-IsShown env floats fs index request.include_sensitive parsed 0 allowed (
          filter_sensitivity-visible env index request.include_sensitive
            (suppress_duplicates candidates)))
        h

-- No response of `retrieve`, in any mode, shows a hit whose scope asks for an explicit query, unless
-- the request opts in: neither a local hit, nor one of a snapshot or of the exact scan over the
-- vectors, nor one that fusion made. The limit is positive and the budget fits 32 bits.
pub retrieve-IsShown :
    {F : Type 0} (env : Env) (floats : Floats F) (fs : FileSystem) (channels : Channels F)
    (config : PipelineConfig) (request : RetrievalQuery)
    (configured : Result (Text × Text) (EmbeddingProvider F))
    → 0 < request.limit
    → request.token_budget ≤ u32_max
    → OkHolds
        (λ (r : RetrievalResponse F). All (IsShown request.include_sensitive) r.results)
        (retrieve env floats fs channels config request configured)
unfolding lexical_response respond
retrieve-IsShown {F} env floats fs channels config request configured pos small =
    let packed =
      λ (hits : List (RetrievalHit F)) (warnings : List Text)
          (h : All (IsShown request.include_sensitive) hits).
        Prefix-IsShown request.include_sensitive
          (pack_results request.query hits request.limit request.token_budget warnings).results hits
          (pack_results-prefix request.query hits request.limit request.token_budget warnings pos
            small).0
          h in
    retrieve-OkHolds env floats fs channels config request (All (IsShown request.include_sensitive))
      tt
      (λ provider channel ran.
        subst (OkHolds (Shows env floats fs channels config request)) ran
          (semantic_hits-Shown env floats fs channels config request provider))
      (λ (r : RetrievalResponse F). All (IsShown request.include_sensitive) r.results)
      (λ requested parsed candidates semantic warnings telemetry h.
        let fused =
          fused_hits env floats fs channels config request parsed candidates semantic warnings in
        packed fused.0.hits fused.1 (
          fused_hits-Shown env floats fs channels config request parsed candidates semantic warnings
            h))
      (λ channel h. packed channel.hits channel.warnings h) configured
