-- ===== src/Retrieval/Pipeline/Vectors.antt =====
-- retrieval.rs: `SqliteExactVectorSearch::search`, the exact scan over the stored vectors.
-- Identifiers are parsed by the uuid crate; the rest of a row has the
-- types of its columns.
pub mod Shown
use omni_sem.Base.{
  ℕ, ◌+◌, ◌*◌, min, Ordering, Bool, true, false, not, ◌&&◌, ◌||◌, Option, none, some, List, [], ◌∷◌,
  ◌++◌, Text, codes, if◌then◌else◌, is_empty, length, take, ltb, leb, ◌==◌, any, contains, nat_eq,
  to_u32, compare_text, then_with, sort_by,
}
use omni_sem.Domain.{
  FilePath, Timestamp, SupportedFileType, RetrievalQuery, RetrievalHit, SensitivityScope,
  EvidenceOrigin, semantic_neighbor, Result, ok, err, ◌>>=◌,
}
use omni_sem.Domain.Names.{file_type_from_str}
use omni_sem.Domain.Paths.{compare_path}
use omni_sem.Freshness.{FileSystem, inspect_freshness}
use omni_sem.Tokens.{result_overhead_tokens, max_hit_text_bytes, estimate, truncate_utf8}
use omni_sem.Retrieval.Env.{Floats, Env}
use omni_sem.Retrieval.Sensitivity.{sensitivity_for_path, load_sensitivity_sets, visible}
use omni_sem.Retrieval.Pipeline.Decode.{dot_from, decode_vector}
use omni_sem.Retrieval.Pipeline.{
  RetrievalError, storage, internal, EmbeddingSpace, VectorRow, VectorSearchReport, Channels,
  PipelineConfig, semantic_error, max_semantic_candidates,
}

abbrev pub max_active_vectors : ℕ
max_active_vectors = 50_000

abbrev pub same_file_type : SupportedFileType → SupportedFileType → Bool
same_file_type SupportedFileType.markdown SupportedFileType.markdown = true
same_file_type SupportedFileType.markdown SupportedFileType.plain_text = false
same_file_type SupportedFileType.plain_text SupportedFileType.markdown = false
same_file_type SupportedFileType.plain_text SupportedFileType.plain_text = true

-- The root and the type are asked for.
unfoldable pub is_wanted : RetrievalQuery → ℕ → SupportedFileType → Bool
is_wanted request root_id file_type =
    (is_empty request.root_ids || contains request.root_ids root_id)
    && (is_empty request.file_types || any (same_file_type file_type) request.file_types)

-- The hits with their similarities, and the two counters.
pub record VectorScan (F : Type 0) : Type 0 where
  pub scored : List (F × RetrievalHit F)
  pub examined : ℕ
  pub corrupt : ℕ

unfoldable pub count_corrupt : {F : Type 0} → VectorScan F → VectorScan F
count_corrupt scan = record scan { corrupt = to_u32 (scan.corrupt + 1) }

-- An identifier that does not parse is an internal error.
abbrev pub parsed_id : Result Text ℕ → Result RetrievalError ℕ
parsed_id (ok id) = ok id
parsed_id (err message) = err (internal message)

abbrev pub stored_value {ℓ} : {A : Type ℓ} → Result Text A → Result RetrievalError A
stored_value (ok a) = ok a
stored_value (err message) = err (storage message)

-- `scored.into_iter().enumerate()`: the ranks from `rank` on.
unfoldable pub rank_semantic : {F : Type 0} → ℕ → List (F × RetrievalHit F) → List (RetrievalHit F)
rank_semantic rank [] = []
rank_semantic rank ((similarity, hit) ∷ scored) =
    let s = hit.signals in
    record hit { signals = record s { semantic_rank = some (to_u32 (rank + 1)) } }
    ∷ rank_semantic (rank + 1) scored

module _ {F : Type 0} (env : Env) (floats : Floats F) (fs : FileSystem) (channels : Channels F)
    (config : PipelineConfig) where
  unfoldable pub vector_hit :
      EmbeddingSpace → VectorRow → ℕ → SupportedFileType → F → ℕ → ℕ → ℕ → RetrievalHit F
  vector_hit space row root_id file_type similarity segment_id revision_id source_file_id =
      let (text, truncated) = truncate_utf8 row.text max_hit_text_bytes in
      record {
        segment_id = segment_id;
        revision_id = revision_id;
        source_file_id = source_file_id;
        root_id = root_id;
        relative_path = row.relative_path;
        file_type = file_type;
        anchor = row.anchor;
        text = text;
        text_hash = row.text_hash;
        score = floats.narrow similarity;
        signals = record {
          channel = codes "local_semantic";
          raw_bm25 = none;
          public_score = floats.narrow similarity;
          federation_score = none;
          lexical_rank = none;
          semantic_rank = none;
          cosine_similarity = some (floats.narrow similarity);
          fusion_score = none;
          embedding_space_id = some space.id;
        };
        explanation = record {
          matched_terms = [];
          matched_excerpt = none;
          explanation_kind = semantic_neighbor;
        };
        freshness = inspect_freshness fs row.root_path row.relative_path row.modified_at;
        sensitivity_scope =
            sensitivity_for_path env (load_sensitivity_sets env config.roots) root_id
              row.relative_path;
        token_estimate = to_u32 (result_overhead_tokens + estimate text);
        truncated = truncated;
        origin = EvidenceOrigin.local_index;
      }

  -- A row whose similarity is a number.
  unfoldable pub push_scored :
      EmbeddingSpace
      → VectorRow
      → ℕ
      → SupportedFileType
      → F
      → VectorScan F
      → Result RetrievalError (VectorScan F)
  unfolding vector_hit
  push_scored space row root_id file_type similarity scan =
      parsed_id row.segment_id >>= (λ segment_id. parsed_id row.revision_id >>= (λ revision_id.
        parsed_id row.source_file_id >>= (λ source_file_id. ok (record scan {
          scored =
              scan.scored
              ++ (
                similarity,
                vector_hit space row root_id file_type similarity segment_id revision_id
                    source_file_id,
              )
                ∷ [];
        }))))

  -- A row that is asked for and not restricted.
  unfoldable pub scan_vector :
      EmbeddingSpace
      → List F
      → VectorRow
      → ℕ
      → SupportedFileType
      → VectorScan F
      → Result RetrievalError (VectorScan F)
  unfolding count_corrupt decode_vector dot_from push_scored
  scan_vector space query row root_id file_type scan =
      if not (row.dimensions == space.dimensions)
      then ok (count_corrupt scan)
      else elim (decode_vector floats row.vector_bytes row.dimensions) [
        | none ↦ ok (count_corrupt scan)
        | some candidate ↦
            let similarity = dot_from floats floats.zero query candidate in
            if not (floats.is_finite similarity)
            then ok (count_corrupt scan)
            else push_scored space row root_id file_type (floats.clamp_unit similarity) scan
      ]

  -- The filters of the loop, before a vector is read.
  unfoldable pub scan_allowed :
      EmbeddingSpace
      → List F
      → RetrievalQuery
      → VectorRow
      → VectorScan F
      → ℕ
      → SupportedFileType
      → Result RetrievalError (VectorScan F)
  unfolding is_wanted scan_vector
  scan_allowed space query request row scan root_id file_type =
      if is_wanted request root_id file_type
        && visible
            (sensitivity_for_path env (load_sensitivity_sets env config.roots) root_id
              row.relative_path)
            request.include_sensitive
      then scan_vector space query row root_id file_type
          (record scan { examined = to_u32 (scan.examined + 1) })
      else ok scan

  unfoldable pub scan_row :
      EmbeddingSpace
      → List F
      → RetrievalQuery
      → VectorRow
      → VectorScan F
      → Result RetrievalError (VectorScan F)
  unfolding scan_allowed
  scan_row space query request row scan = parsed_id row.root_id >>= (λ root_id.
      elim (file_type_from_str row.file_type) [
        | err e ↦ err (internal (channels.domain_error_text e))
        | ok file_type ↦ scan_allowed space query request row scan root_id file_type
      ])

  -- The loop over the rows.
  unfoldable pub scan_rows :
      EmbeddingSpace
      → List F
      → RetrievalQuery
      → List (Result Text VectorRow)
      → VectorScan F
      → Result RetrievalError (VectorScan F)
  unfolding scan_row
  scan_rows space query request [] scan = ok scan
  scan_rows space query request (read ∷ rows) scan =
      stored_value read
      >>= (λ row. scan_row space query request row scan >>= scan_rows space query request rows)

  -- The more similar first, then by path, anchor and segment.
  unfoldable pub compare_scored : F × RetrievalHit F → F × RetrievalHit F → Ordering
  compare_scored (x, a) (y, b) =
      then_with (elim (floats.partial_cmp y x) [ none ↦ Ordering.eq | some o ↦ o ])
        (then_with (compare_path a.relative_path b.relative_path) (
          then_with (compare_text a.anchor b.anchor)
            (compare_text (env.show_id a.segment_id) (env.show_id b.segment_id))))

  unfoldable pub search_report : ℕ → VectorScan F → Result RetrievalError (VectorSearchReport F)
  unfolding compare_scored rank_semantic semantic_error
  search_report limit scan =
      let hits =
        rank_semantic 0
          (take (min limit max_semantic_candidates) (sort_by compare_scored scan.scored)) in
      if is_empty hits && ltb 0 scan.corrupt
      then err (
          semantic_error (codes "VECTOR_SEARCH_FAILED")
            (codes "no valid semantic candidates remained after corrupt-vector exclusion"))
      else ok (record { hits = hits; examined = scan.examined; corrupt_excluded = scan.corrupt })

  unfoldable pub vector_search :
      EmbeddingSpace → List F → RetrievalQuery → ℕ → Result RetrievalError (VectorSearchReport F)
  unfolding scan_rows search_report semantic_error
  vector_search space query request limit =
      stored_value (channels.active_vectors space.id) >>= (λ eligible.
        if ltb max_active_vectors eligible
        then err (
            semantic_error (codes "VECTOR_SCAN_LIMIT_EXCEEDED")
              (codes "eligible active-vector count exceeds the exact-scan safety bound"))
        else stored_value (channels.vector_rows space.id) >>= (λ rows.
          scan_rows space query request rows (record { scored = []; examined = 0; corrupt = 0 })
          >>= search_report limit))
