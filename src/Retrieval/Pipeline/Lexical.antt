-- ===== src/Retrieval/Pipeline/Lexical.antt =====
-- retrieval.rs: `retrieve_lexical`. The time that a retrieval takes is not modelled.
use omni_sem.Base.{
  ℕ, ◌+◌, ◌-◌, ◌*◌, min, max, Bool, none, some, List, [], ◌∷◌, Text, codes, if◌then◌else◌, any,
  is_some, length, map, to_u32,
}
use omni_sem.Domain.{
  RetrievalMode, RetrievalQuery, RetrievalHit, lexical_term_overlap, RetrievalTelemetry,
  RetrievalResponse, EvidenceOrigin, Result, ok, err,
}
use omni_sem.QueryParse.{ParsedQuery, parse_lexical_query}
use omni_sem.Freshness.{FileSystem, inspect_freshness}
use omni_sem.Tokens.{
  result_overhead_tokens, max_hit_text_bytes, estimate, estimate_response_tokens, truncate_utf8,
}
use omni_sem.Retrieval.Env.{Floats, Env}
use omni_sem.Retrieval.Candidates.{RawCandidate, public_score_from_bm25, suppress_duplicates}
use omni_sem.Retrieval.Sensitivity.{
  SensitivityIndex, sensitivity_for_path, load_sensitivity_sets, filter_sensitivity,
}
use omni_sem.Retrieval.Pack.{Packed, pack_results}
use omni_sem.Retrieval.Fusion.{FusionReport}
use omni_sem.Retrieval.Pipeline.{
  Channels, PipelineConfig, RetrievalError, domain, storage, max_candidates, candidate_multiplier,
}
use omni_sem.Retrieval.Pipeline.Snapshots.{
  matched_terms_for, excerpt_from_highlight, federate_with_snapshots,
}

abbrev pub score_kind : RetrievalMode → Bool → Text
score_kind RetrievalMode.hybrid fused = codes "rrf"
score_kind RetrievalMode.lexical fused = if fused then codes "rrf" else codes "bm25_public"
score_kind RetrievalMode.semantic fused = if fused then codes "rrf" else codes "bm25_public"
score_kind RetrievalMode.auto fused = if fused then codes "rrf" else codes "bm25_public"

-- `(limit * CANDIDATE_MULTIPLIER).clamp(1, MAX_CANDIDATES)`
unfoldable pub candidate_limit : ℕ → ℕ
candidate_limit limit = min (max (limit * candidate_multiplier) 1) max_candidates

module _ {F : Type 0} where
  unfoldable pub hits_use_fusion : List (RetrievalHit F) → Bool
  hits_use_fusion hits = any (λ hit. is_some hit.signals.fusion_score) hits

  -- `Hybrid` if the semantic channel gave hits.
  abbrev pub effective_mode : List (RetrievalHit F) → RetrievalMode
  effective_mode [] = RetrievalMode.lexical
  effective_mode (hit ∷ hits) = RetrievalMode.hybrid

  abbrev pub texts_of : List (RetrievalHit F) → List Text
  texts_of hits = map (λ hit. hit.text) hits

  -- The response that both modes build from the packed hits.
  unfoldable pub respond :
      RetrievalQuery
      → RetrievalMode
      → RetrievalMode
      → Text
      → ℕ
      → RetrievalTelemetry F
      → Packed F
      → RetrievalResponse F
  respond request requested mode kind duplicates telemetry packed = record {
    query = request.query;
    requested_mode = requested;
    mode = mode;
    score_kind = kind;
    results = packed.results;
    token_estimate = to_u32 (estimate_response_tokens request.query (texts_of packed.results));
    truncated = packed.truncated;
    applied_limit = request.limit;
    applied_token_budget = request.token_budget;
    budget_preset = request.budget_preset;
    duplicates_suppressed = duplicates;
    warnings = packed.warnings;
    telemetry = telemetry;
  }

module _ {F : Type 0} (env : Env) (floats : Floats F) (fs : FileSystem)
    (index : SensitivityIndex) where
  unfoldable pub local_hit : ParsedQuery → ℕ → RawCandidate F → RetrievalHit F
  unfolding matched_terms_for excerpt_from_highlight
  local_hit parsed rank candidate =
      let (text, truncated) = truncate_utf8 candidate.text max_hit_text_bytes in
      let public_score = public_score_from_bm25 floats candidate.raw_bm25 in
      record {
        segment_id = candidate.segment_id;
        revision_id = candidate.revision_id;
        source_file_id = candidate.source_file_id;
        root_id = candidate.root_id;
        relative_path = candidate.relative_path;
        file_type = candidate.file_type;
        anchor = candidate.anchor;
        text = text;
        text_hash = candidate.text_hash;
        score = public_score;
        signals = record {
          channel = codes "lexical_fts5";
          raw_bm25 = some candidate.raw_bm25;
          public_score = public_score;
          federation_score = none;
          lexical_rank = some (to_u32 (rank + 1));
          semantic_rank = none;
          cosine_similarity = none;
          fusion_score = none;
          embedding_space_id = none;
        };
        explanation = record {
          matched_terms = matched_terms_for env parsed candidate.text;
          matched_excerpt = some (excerpt_from_highlight env candidate.highlighted candidate.text);
          explanation_kind = lexical_term_overlap;
        };
        freshness =
            inspect_freshness fs candidate.root_path candidate.relative_path candidate.modified_at;
        sensitivity_scope =
            sensitivity_for_path env index candidate.root_id candidate.relative_path;
        token_estimate = to_u32 (result_overhead_tokens + estimate text);
        truncated = truncated;
        origin = EvidenceOrigin.local_index;
      }

  unfoldable pub local_hits : ParsedQuery → ℕ → List (RawCandidate F) → List (RetrievalHit F)
  unfolding local_hit
  local_hits parsed rank [] = []
  local_hits parsed rank (candidate ∷ candidates) =
      local_hit parsed rank candidate ∷ local_hits parsed (rank + 1) candidates

module _ {F : Type 0} (env : Env) (floats : Floats F) (fs : FileSystem) (channels : Channels F)
    (config : PipelineConfig) where
  -- The query is parsed and the full-text index is searched.
  unfoldable pub lexical_candidates :
      RetrievalQuery → Result RetrievalError (ParsedQuery × List (RawCandidate F))
  unfolding candidate_limit
  lexical_candidates request = elim (parse_lexical_query env request.query) [
    | err e ↦ err (domain e)
    | ok parsed ↦ elim (channels.search_fts request parsed (candidate_limit request.limit)) [
      | err message ↦ err (storage message)
      | ok candidates ↦ ok (parsed, candidates)
    ]
  ]

  -- Duplicates are suppressed, then the restricted candidates are left out.
  unfoldable pub allowed_candidates : RetrievalQuery → List (RawCandidate F) → List (RawCandidate F)
  allowed_candidates request candidates =
      filter_sensitivity env (suppress_duplicates candidates)
        (load_sensitivity_sets env config.roots) request.include_sensitive

  -- The local hits with those of the snapshots and of the semantic channel.
  unfoldable pub fused_hits :
      RetrievalQuery
      → ParsedQuery
      → List (RawCandidate F)
      → List (RetrievalHit F)
      → List Text
      → FusionReport F × List Text
  unfolding allowed_candidates local_hits federate_with_snapshots
  fused_hits request parsed candidates semantic_hits warnings =
      let index = load_sensitivity_sets env config.roots in
      federate_with_snapshots env floats channels index request parsed
        (local_hits env floats fs index parsed 0 (allowed_candidates request candidates)) warnings
        semantic_hits

  unfoldable pub lexical_response :
      RetrievalQuery
      → RetrievalMode
      → ParsedQuery
      → List (RawCandidate F)
      → List (RetrievalHit F)
      → List Text
      → RetrievalTelemetry F
      → RetrievalResponse F
  unfolding fused_hits hits_use_fusion respond
  lexical_response request requested_mode parsed candidates semantic_hits warnings telemetry =
      let fused = fused_hits request parsed candidates semantic_hits warnings in
      let fusion = fused.0 in
      let packed =
        pack_results request.query fusion.hits request.limit request.token_budget fused.1 in
      let mode = effective_mode semantic_hits in
      respond request requested_mode mode (score_kind mode (hits_use_fusion packed.results))
        (to_u32 (length candidates - length (suppress_duplicates candidates)))
        (record telemetry {
          local_lexical_candidates = to_u32 (length (allowed_candidates request candidates));
          snapshot_lexical_candidates = fusion.snapshot_candidates;
          semantic_candidates = fusion.semantic_candidates;
          candidates_admitted_to_fusion = fusion.admitted;
          unique_fused_candidates = fusion.unique;
          fusion_duplicates_suppressed = fusion.duplicates;
        })
        packed

  unfoldable pub retrieve_lexical :
      RetrievalQuery
      → RetrievalMode
      → List (RetrievalHit F)
      → List Text
      → RetrievalTelemetry F
      → Result RetrievalError (RetrievalResponse F)
  unfolding lexical_candidates lexical_response
  retrieve_lexical request requested_mode semantic_hits warnings telemetry =
      elim (lexical_candidates request) [
        | err e ↦ err e
        | ok (parsed, candidates) ↦ ok (
            lexical_response request requested_mode parsed candidates semantic_hits warnings
              telemetry)
      ]
