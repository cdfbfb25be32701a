-- ===== src/Retrieval/Pipeline.antt =====
-- The retrieval pipeline of crates/omnisem-core/src/retrieval.rs: the lexical, semantic and hybrid
-- modes around the parts that the sibling modules model. `Channels` is what the pipeline reads: the
-- rows of the SQL queries and of the snapshots, the embedding provider.
pub mod Lexical
pub mod Snapshots
pub mod Decode
pub mod Vectors
pub mod Semantic
pub mod Modes
pub mod Holds
pub mod Bounded
pub mod Shown
pub mod Fallback
pub mod Confidential
pub mod Hidden
mod Examples
use omni_sem.Base.{ℕ, Bool, Option, List, Text, codes, take, ◌++◌}
use omni_sem.Domain.{
  Timestamp, FilePath, SupportedFileType, DomainError, RetrievalQuery, RetrievalHit,
  RetrievalTelemetry, Result,
}
use omni_sem.QueryParse.{ParsedQuery}
use omni_sem.Freshness.{FileSystem}
use omni_sem.Retrieval.Env.{Floats, Env}
use omni_sem.Retrieval.Candidates.{RawCandidate}
use omni_sem.Retrieval.Sensitivity.{RootConfig}

abbrev pub max_candidates : ℕ
max_candidates = 200

abbrev pub candidate_multiplier : ℕ
candidate_multiplier = 8

abbrev pub max_semantic_candidates : ℕ
max_semantic_candidates = 200

abbrev pub max_snapshots_per_query : ℕ
max_snapshots_per_query = 8

-- error.rs: the variants that retrieval itself raises; a storage error is its message.
pub data RetrievalError : Type 0 where
  domain : DomainError → RetrievalError
  storage : Text → RetrievalError
  semantic : Text → Text → RetrievalError
  internal : Text → RetrievalError

pub data EmbeddingProviderKind : Type 0 where
  absent : EmbeddingProviderKind
  ollama : EmbeddingProviderKind

-- embedding.rs: `ResolvedEmbeddingModel`
pub record ResolvedEmbeddingModel : Type 0 where
  pub provider : EmbeddingProviderKind
  pub configured_name : Text
  pub canonical_name : Text
  pub model_digest : Text
  pub dimensions : Option ℕ

-- embedding.rs: `EmbeddingSpace`, without the normalisation, which has one value.
pub record EmbeddingSpace : Type 0 where
  pub id : Text
  pub provider : EmbeddingProviderKind
  pub canonical_model : Text
  pub model_digest : Text
  pub dimensions : ℕ
  pub input_contract_version : Text

-- The row of the active embedding space.
pub record SpaceRow : Type 0 where
  pub id : Text
  pub provider : Text
  pub canonical_model : Text
  pub model_digest : Text
  pub dimensions : ℕ
  pub normalization : Text
  pub input_contract_version : Text

-- `EmbeddingProvider`; an error is its code and its message.
pub record EmbeddingProvider (F : Type 0) : Type 0 where
  pub provider_kind : EmbeddingProviderKind
  pub resolve_model : Result (Text × Text) ResolvedEmbeddingModel
  pub embed : Text → ResolvedEmbeddingModel → Result (Text × Text) (List (List F))

pub record VectorSearchReport (F : Type 0) : Type 0 where
  pub hits : List (RetrievalHit F)
  pub examined : ℕ
  pub corrupt_excluded : ℕ

-- snapshot.rs: `SnapshotSource`, without the path of the payload.
pub record SnapshotSource : Type 0 where
  pub snapshot_id : Text
  pub snapshot_root_id : Text
  pub local_root_id : ℕ

-- A row of a snapshot's index behind its path; the identifiers are decoded.
pub record SnapshotFields (F : Type 0) : Type 0 where
  pub segment_id : ℕ
  pub revision_id : ℕ
  pub source_file_id : ℕ
  pub anchor : Text
  pub text : Text
  pub text_hash : Text
  pub file_type : Text
  pub raw : F
  pub highlighted : Text

abbrev pub SnapshotRow : Type 0 → Type 0
SnapshotRow F = FilePath × Result Text (SnapshotFields F)

-- A row of the exact scan; an identifier that does not parse is the message of its error.
pub record VectorRow : Type 0 where
  pub segment_id : Result Text ℕ
  pub revision_id : Result Text ℕ
  pub source_file_id : Result Text ℕ
  pub root_id : Result Text ℕ
  pub relative_path : FilePath
  pub file_type : Text
  pub anchor : Text
  pub text : Text
  pub text_hash : Text
  pub root_path : FilePath
  pub modified_at : Option Timestamp
  pub vector_bytes : List ℕ
  pub dimensions : ℕ

pub record Channels (F : Type 0) : Type 0 where
  -- `search_fts`
  pub search_fts : RetrievalQuery → ParsedQuery → ℕ → Result Text (List (RawCandidate F))
  -- `eligible_snapshot_sources`
  pub snapshot_sources : RetrievalQuery → Result Text (List SnapshotSource)
  -- The rows of `search_snapshot_hits`; an error is the message of a failure to open or to query.
  pub snapshot_rows :
      SnapshotSource → RetrievalQuery → ParsedQuery → Result Text (List (SnapshotRow F))
  -- The row of `load_active_space`
  pub active_space : Result Text (Option SpaceRow)
  -- The count of linked active segments
  pub linked : Text → Result Text ℕ
  -- `normalize_vector`
  pub normalize_vector : List F → Result (Text × Text) (List F)
  -- The count of active vectors of a space, and the rows that the exact scan reads, in their order.
  pub active_vectors : Text → Result Text ℕ
  pub vector_rows : Text → Result Text (List (Result Text VectorRow))
  -- `Display` of a retrieval error and of a domain error
  pub error_text : RetrievalError → Text
  pub domain_error_text : DomainError → Text
  pub show_count : ℕ → Text

-- The fields of `AppConfig` that are read.
pub record PipelineConfig : Type 0 where
  pub roots : List RootConfig
  pub embeddings_enabled : Bool
  pub embeddings_dimensions : ℕ

unfoldable pub semantic_error : Text → Text → RetrievalError
semantic_error code message = semantic code (take 240 message)

unfoldable pub bounded_warning : Text → Text → Text
bounded_warning prefix message = prefix ++ (codes ": " ++ take 180 message)

-- `RetrievalTelemetry::default`
abbrev pub default_telemetry : {F : Type 0} → Floats F → RetrievalTelemetry F
default_telemetry floats = record {
  query_embedding_ms = floats.zero;
  vector_scan_ms = floats.zero;
  active_vectors_examined = 0;
  corrupt_vectors_excluded = 0;
  local_lexical_candidates = 0;
  snapshot_lexical_candidates = 0;
  semantic_candidates = 0;
  candidates_admitted_to_fusion = 0;
  unique_fused_candidates = 0;
  fusion_duplicates_suppressed = 0;
}
