-- ===== src/Retrieval/Pipeline/Vectors/Shown.antt =====
-- The exact scan gives only hits that may be shown.
use omni_sem.Base.{
  ℕ, ◌+◌, ◌≡◌, true, not, ◌&&◌, Option, none, some, List, [], ◌∷◌, Text, take, zero, suc, ltb,
  is_empty, ◌==◌, if◌then◌else◌, if-Holds, min, Bool-cases, inl, inr, All, All-append, All-sort_by,
  sort_by,
}
use omni_sem.Domain.{SupportedFileType, RetrievalQuery, RetrievalHit, Result, ok, err}
use omni_sem.Domain.Names.{file_type_from_str}
use omni_sem.Freshness.{FileSystem}
use omni_sem.Retrieval.Env.{Floats, Env}
use omni_sem.Retrieval.Sensitivity.{sensitivity_for_path, load_sensitivity_sets, visible}
use omni_sem.Retrieval.Pipeline.{
  internal, EmbeddingSpace, VectorRow, VectorSearchReport, Channels, PipelineConfig,
  max_semantic_candidates,
}
use omni_sem.Retrieval.Pipeline.Holds.{OkHolds, bind-OkHolds, then-OkHolds}
use omni_sem.Retrieval.Pipeline.Shown.{IsShown}
use omni_sem.Retrieval.Pipeline.Decode.{dot_from, decode_vector}
use omni_sem.Retrieval.Pipeline.Vectors.{
  VectorScan, is_wanted, count_corrupt, parsed_id, stored_value, rank_semantic, vector_hit,
  push_scored, scan_vector, scan_allowed, scan_row, scan_rows, compare_scored, search_report,
  vector_search, max_active_vectors,
}

All-take {ℓ κ} : {A : Type ℓ} (P : A → Type κ) (n : ℕ) (xs : List A) → All P xs → All P (take n xs)
All-take P zero xs h = tt
All-take P (suc n) [] h = tt
All-take P (suc n) (x ∷ xs) (p, h) = (p, All-take P n xs h)

module _ {F : Type 0} (env : Env) (floats : Floats F) (fs : FileSystem) (channels : Channels F)
    (config : PipelineConfig) (request : RetrievalQuery) (space : EmbeddingSpace)
    (query : List F) where
  abbrev ScoredShown : F × RetrievalHit F → Type 0
  ScoredShown scored = IsShown request.include_sensitive scored.1

  abbrev ScanShown : VectorScan F → Type 0
  ScanShown scan = All ScoredShown scan.scored

  push_scored-Shown :
      (row : VectorRow) (root_id : ℕ) (file_type : SupportedFileType) (similarity : F)
      (scan : VectorScan F)
      → visible
          (sensitivity_for_path env
            (load_sensitivity_sets env config.roots)
            root_id
            row.relative_path)
          request.include_sensitive
        ≡ true
      → ScanShown scan
      → OkHolds ScanShown
          (push_scored env floats fs channels config space row root_id file_type similarity scan)
  unfolding push_scored vector_hit
  push_scored-Shown row root_id file_type similarity scan shown kept =
      bind-OkHolds ScanShown (parsed_id row.segment_id) _ (λ segment_id.
        bind-OkHolds ScanShown (parsed_id row.revision_id) _ (λ revision_id.
          bind-OkHolds ScanShown (parsed_id row.source_file_id) _
            (λ source_file_id. All-append ScoredShown scan.scored (_ ∷ []) kept (shown, tt))))

  scan_vector-Shown :
      (row : VectorRow) (root_id : ℕ) (file_type : SupportedFileType) (scan : VectorScan F)
      → visible
          (sensitivity_for_path env
            (load_sensitivity_sets env config.roots)
            root_id
            row.relative_path)
          request.include_sensitive
        ≡ true
      → ScanShown scan
      → OkHolds ScanShown
          (scan_vector env floats fs channels config space query row root_id file_type scan)
  unfolding scan_vector count_corrupt
  scan_vector-Shown row root_id file_type scan shown kept =
      if-Holds (OkHolds ScanShown) (not (row.dimensions == space.dimensions))
        (ok (count_corrupt scan)) _ kept
        (of_decoded (decode_vector floats row.vector_bytes row.dimensions))
    where
      of_decoded :
          (decoded : Option (List F))
          → OkHolds ScanShown (elim decoded [
            | none ↦ ok (count_corrupt scan)
            | some candidate ↦
                let similarity = dot_from floats floats.zero query candidate in
                if not (floats.is_finite similarity)
                then ok (count_corrupt scan)
                else push_scored env floats fs channels config space row root_id file_type
                    (floats.clamp_unit similarity)
                    scan
          ])
      of_decoded none = kept
      of_decoded (some candidate) =
          let similarity = dot_from floats floats.zero query candidate in
          if-Holds (OkHolds ScanShown) (not (floats.is_finite similarity)) (ok (count_corrupt scan))
            _ kept
            (push_scored-Shown row root_id file_type (floats.clamp_unit similarity) scan shown kept)

  scan_allowed-Shown :
      (row : VectorRow) (scan : VectorScan F) (root_id : ℕ) (file_type : SupportedFileType)
      → ScanShown scan
      → OkHolds ScanShown (
          scan_allowed env floats fs channels config space query request row scan root_id file_type)
  unfolding scan_allowed
  scan_allowed-Shown row scan root_id file_type kept =
      let shown =
        visible
          (sensitivity_for_path env (load_sensitivity_sets env config.roots) root_id
            row.relative_path)
          request.include_sensitive in
      elim (Bool-cases (is_wanted request root_id file_type)) [
        | inr unwanted ↦ rw (scan_allowed, unwanted) kept
        | inl wanted ↦ elim (Bool-cases shown) [
          | inr hidden ↦ rw (scan_allowed, wanted, hidden) kept
          | inl open_to ↦
              rw (scan_allowed, wanted, open_to)
                (scan_vector-Shown row root_id file_type _ open_to kept)
        ]
      ]

  scan_row-Shown :
      (row : VectorRow) (scan : VectorScan F)
      → ScanShown scan
      → OkHolds ScanShown (scan_row env floats fs channels config space query request row scan)
  unfolding scan_row
  scan_row-Shown row scan kept =
      bind-OkHolds ScanShown (parsed_id row.root_id) _
        (λ root_id. of_type root_id (file_type_from_str row.file_type))
    where
      of_type :
          (root_id : ℕ) (read : Result _ SupportedFileType)
          → OkHolds ScanShown (elim read [
            | err e ↦ err (internal (channels.domain_error_text e))
            | ok file_type ↦
                scan_allowed env floats fs channels config space query request row scan root_id
                  file_type
          ])
      of_type root_id (err e) = tt
      of_type root_id (ok file_type) = scan_allowed-Shown row scan root_id file_type kept

  scan_rows-Shown :
      (rows : List (Result Text VectorRow)) (scan : VectorScan F)
      → ScanShown scan
      → OkHolds ScanShown (scan_rows env floats fs channels config space query request rows scan)
  unfolding scan_rows
  scan_rows-Shown [] scan kept = kept
  scan_rows-Shown (read ∷ rows) scan kept = bind-OkHolds ScanShown (stored_value read) _ (λ row.
      then-OkHolds ScanShown ScanShown
        (scan_row env floats fs channels config space query request row scan)
        (scan_rows env floats fs channels config space query request rows)
        (scan_row-Shown row scan kept) (λ next kept'. scan_rows-Shown rows next kept'))

  rank_semantic-Shown :
      (rank : ℕ) (scored : List (F × RetrievalHit F))
      → All ScoredShown scored
      → All (IsShown request.include_sensitive) (rank_semantic rank scored)
  unfolding rank_semantic
  rank_semantic-Shown rank [] h = tt
  rank_semantic-Shown rank ((similarity, hit) ∷ scored) (p, h) =
      (p, rank_semantic-Shown (rank + 1) scored h)

  abbrev pub ReportShown : VectorSearchReport F → Type 0
  ReportShown report = All (IsShown request.include_sensitive) report.hits

  search_report-Shown :
      (limit : ℕ) (scan : VectorScan F)
      → ScanShown scan
      → OkHolds ReportShown (search_report env floats fs channels config limit scan)
  unfolding search_report
  search_report-Shown limit scan kept =
      let sorted = sort_by (compare_scored env floats fs channels config) scan.scored in
      let hits = rank_semantic 0 (take (min limit max_semantic_candidates) sorted) in
      if-Holds (OkHolds ReportShown) (is_empty hits && ltb 0 scan.corrupt) (err _)
        (ok (record { hits = hits; examined = scan.examined; corrupt_excluded = scan.corrupt })) tt
        (rank_semantic-Shown 0 (take (min limit max_semantic_candidates) sorted) (
          All-take ScoredShown (min limit max_semantic_candidates) sorted (
            All-sort_by (compare_scored env floats fs channels config) ScoredShown scan.scored
              kept)))

  -- Whatever rows are stored, the exact scan gives no hit whose scope asks for an explicit query, unless
  -- the request opts in.
  pub vector_search-Shown :
      (limit : ℕ)
      → OkHolds ReportShown (vector_search env floats fs channels config space query request limit)
  unfolding vector_search
  vector_search-Shown limit =
      bind-OkHolds ReportShown (stored_value (channels.active_vectors space.id)) _ (λ eligible.
        if-Holds (OkHolds ReportShown) (ltb max_active_vectors eligible) (err _) _ tt (
          bind-OkHolds ReportShown (stored_value (channels.vector_rows space.id)) _ (λ rows.
            then-OkHolds ScanShown ReportShown
              (scan_rows env floats fs channels config space query request rows
                (record { scored = []; examined = 0; corrupt = 0 }))
              (search_report env floats fs channels config limit) (scan_rows-Shown rows _ tt)
              (λ scan kept. search_report-Shown limit scan kept))))
