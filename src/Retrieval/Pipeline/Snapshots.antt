-- ===== src/Retrieval/Pipeline/Snapshots.antt =====
-- retrieval.rs: what a hit shows of its text, `search_snapshot_hits` and `federate_with_snapshots`.
use omni_sem.Base.{
  ℕ, ◌+◌, Bool, not, ◌&&◌, ◌||◌, none, some, List, [], ◌∷◌, ◌++◌, Text, codes, if◌then◌else◌,
  filter, is_empty, length, take, leb, to_u32, u32_max, contains, nat_eq, str_contains,
  trim_matches,
}
use omni_sem.Domain.{
  FilePath, SupportedFileType, RetrievalQuery, RetrievalHit, lexical_term_overlap, EvidenceOrigin,
  unknown, Result, ok, err,
}
use omni_sem.Domain.Names.{file_type_from_str}
use omni_sem.QueryParse.{ParsedQuery}
use omni_sem.Tokens.{result_overhead_tokens, max_hit_text_bytes, estimate, truncate_utf8}
use omni_sem.Retrieval.Env.{Floats, Env}
use omni_sem.Retrieval.Candidates.{public_score_from_bm25}
use omni_sem.Retrieval.Sensitivity.{SensitivityIndex, sensitivity_for_path, visible}
use omni_sem.Retrieval.Fusion.{FusionReport, unfused, rrf_merge}
use omni_sem.Retrieval.Pipeline.{
  SnapshotSource, SnapshotFields, SnapshotRow, Channels, max_snapshots_per_query,
}

module _ (env : Env) where
  unfoldable pub matched_terms_for : ParsedQuery → Text → List Text
  unfolding str_contains
  matched_terms_for parsed text =
      let lower = env.to_lowercase text in
      filter (λ term. str_contains lower (env.to_lowercase term)) parsed.terms

  unfoldable pub excerpt_from_highlight : Text → Text → Text
  unfolding truncate_utf8 trim_matches
  excerpt_from_highlight highlighted fallback =
      (truncate_utf8
        (if is_empty (trim_matches env.is_whitespace highlighted) then fallback else highlighted)
        240).0

-- `u32::try_from(x).unwrap_or(1)`
abbrev pub u32_or_one : ℕ → ℕ
u32_or_one x = if leb x u32_max then x else 1

-- `hits.iter_mut().enumerate()`: the ranks from `rank` on.
unfoldable pub rank_hits : {F : Type 0} → ℕ → List (RetrievalHit F) → List (RetrievalHit F)
rank_hits rank [] = []
rank_hits rank (hit ∷ hits) =
    let s = hit.signals in
    record hit { signals = record s { lexical_rank = some (to_u32 (rank + 1)) } }
    ∷ rank_hits (rank + 1) hits

-- The saturating sum of the lengths.
unfoldable pub count_hits : {F : Type 0} → ℕ → List (List (RetrievalHit F)) → ℕ
count_hits total [] = total
count_hits total (list ∷ lists) = count_hits (to_u32 (total + to_u32 (length list))) lists

-- `if !semantic_hits.is_empty() { lists.push(semantic_hits) }`
abbrev pub semantic_list : {F : Type 0} → List (RetrievalHit F) → List (List (RetrievalHit F))
semantic_list [] = []
semantic_list (hit ∷ hits) = (hit ∷ hits) ∷ []

module _ {F : Type 0} (env : Env) (floats : Floats F) (channels : Channels F)
    (index : SensitivityIndex) where
  -- The guards of the loop: the root is asked for, and the path is not restricted.
  unfoldable pub is_admitted : RetrievalQuery → SnapshotSource → FilePath → Bool
  is_admitted request source relative =
      (is_empty request.root_ids || contains request.root_ids source.local_root_id)
      && visible (sensitivity_for_path env index source.local_root_id relative)
          request.include_sensitive

  unfoldable pub row_hit :
      ParsedQuery
      → SnapshotSource
      → FilePath
      → SnapshotFields F
      → SupportedFileType
      → RetrievalHit F
  unfolding matched_terms_for excerpt_from_highlight
  row_hit parsed source relative row file_type =
      let public = public_score_from_bm25 floats row.raw in
      let (text, truncated) = truncate_utf8 row.text max_hit_text_bytes in
      record {
        segment_id = row.segment_id;
        revision_id = row.revision_id;
        source_file_id = row.source_file_id;
        root_id = source.local_root_id;
        relative_path = relative;
        file_type = file_type;
        anchor = row.anchor;
        text = text;
        text_hash = row.text_hash;
        score = public;
        signals = record {
          channel = codes "snapshot_fts5";
          raw_bm25 = some row.raw;
          public_score = public;
          federation_score = none;
          lexical_rank = none;
          semantic_rank = none;
          cosine_similarity = none;
          fusion_score = none;
          embedding_space_id = none;
        };
        explanation = record {
          matched_terms = matched_terms_for env parsed text;
          matched_excerpt = some (excerpt_from_highlight env row.highlighted text);
          explanation_kind = lexical_term_overlap;
        };
        freshness = unknown;
        sensitivity_scope = sensitivity_for_path env index source.local_root_id relative;
        token_estimate = u32_or_one (result_overhead_tokens + estimate text);
        truncated = truncated;
        origin = EvidenceOrigin.snapshot source.snapshot_id source.snapshot_root_id;
      }

  unfoldable pub snapshot_hit :
      ParsedQuery → SnapshotSource → FilePath → SnapshotFields F → Result Text (RetrievalHit F)
  unfolding row_hit
  snapshot_hit parsed source relative row = elim (file_type_from_str row.file_type) [
    | err e ↦ err (channels.domain_error_text e)
    | ok file_type ↦ ok (row_hit parsed source relative row file_type)
  ]

  -- The loop over the rows; a row that cannot be decoded ends it with an error.
  unfoldable pub snapshot_hits :
      RetrievalQuery
      → ParsedQuery
      → SnapshotSource
      → List (SnapshotRow F)
      → Result Text (List (RetrievalHit F))
  unfolding is_admitted snapshot_hit
  snapshot_hits request parsed source [] = ok []
  snapshot_hits request parsed source ((relative, decoded) ∷ rows) =
      let later = snapshot_hits request parsed source rows in
      if not (is_admitted request source relative) then later else elim decoded [
        | err message ↦ err message
        | ok row ↦ elim (snapshot_hit parsed source relative row) [
          | err message ↦ err message
          | ok hit ↦ elim later [ err message ↦ err message | ok hits ↦ ok (hit ∷ hits) ]
        ]
      ]

  unfoldable pub search_snapshot_hits :
      RetrievalQuery → ParsedQuery → SnapshotSource → Result Text (List (RetrievalHit F))
  unfolding snapshot_hits rank_hits
  search_snapshot_hits request parsed source = elim (channels.snapshot_rows source request parsed) [
    | err message ↦ err message
    | ok rows ↦ elim (snapshot_hits request parsed source rows) [
      | err message ↦ err message
      | ok hits ↦ ok (rank_hits 0 hits)
    ]
  ]

  -- One snapshot: its list of hits if there are any, and the warning if it is left out.
  unfoldable pub snapshot_list :
      RetrievalQuery → ParsedQuery → SnapshotSource → List (List (RetrievalHit F)) × List Text
  unfolding search_snapshot_hits
  snapshot_list request parsed source = elim (search_snapshot_hits request parsed source) [
    | err message ↦
        ([], (codes "snapshot " ++ (source.snapshot_id ++ (codes " excluded: " ++ message))) ∷ [])
    | ok hits ↦ (if is_empty hits then [] else hits ∷ [], [])
  ]

  -- The loop over the snapshots.
  unfoldable pub snapshot_lists :
      RetrievalQuery → ParsedQuery → List SnapshotSource → List (List (RetrievalHit F)) × List Text
  unfolding snapshot_list
  snapshot_lists request parsed [] = ([], [])
  snapshot_lists request parsed (source ∷ sources) =
      let one = snapshot_list request parsed source in
      let rest = snapshot_lists request parsed sources in (one.0 ++ rest.0, one.1 ++ rest.1)

  -- From the sources on: the local list, those of the snapshots, and the semantic one. The warnings
  -- are those that the snapshots add.
  unfoldable pub fuse_lists :
      RetrievalQuery
      → ParsedQuery
      → List (RetrievalHit F)
      → List SnapshotSource
      → List (RetrievalHit F)
      → FusionReport F × List Text
  unfolding snapshot_lists count_hits
  fuse_lists request parsed local_hits sources semantic_hits =
      let found = snapshot_lists request parsed (take max_snapshots_per_query sources) in
      let others = found.0 ++ semantic_list semantic_hits in
      if is_empty others then (unfused local_hits, found.1) else (
        record (rrf_merge floats (local_hits ∷ others)) {
          snapshot_candidates = count_hits 0 found.0;
          semantic_candidates = to_u32 (length semantic_hits);
        },
        found.1,
      )

  unfoldable pub federate_with_snapshots :
      RetrievalQuery
      → ParsedQuery
      → List (RetrievalHit F)
      → List Text
      → List (RetrievalHit F)
      → FusionReport F × List Text
  unfolding fuse_lists
  federate_with_snapshots request parsed local_hits warnings semantic_hits =
      elim (channels.snapshot_sources request) [
        | err error ↦
            let warned = warnings ++ (codes "snapshot federation skipped: " ++ error) ∷ [] in
            if is_empty semantic_hits then (unfused local_hits, warned) else (
              record (rrf_merge floats (local_hits ∷ semantic_hits ∷ [])) {
                semantic_candidates = to_u32 (length semantic_hits);
              },
              warned,
            )
        | ok sources ↦
            if is_empty sources && is_empty semantic_hits
            then (unfused local_hits, warnings)
            else let fused = fuse_lists request parsed local_hits sources semantic_hits in
              (fused.0, warnings ++ fused.1)
      ]
