-- ===== src/Domain.antt =====
-- crates/omnisem-core/src/domain.rs: the types that indexing and retrieval share. An identifier is
-- the number that its UUID encodes; its text form has a fixed width, so it orders as the number
-- does. `F` is the type of the source's `f32` and `f64` values.
pub mod Names
pub mod Records
pub mod Paths
use omni_sem.Base.{
  ◌≡◌, refl, ◌⊎◌, inl, inr, ℕ, zero, suc, Option, Bool, List, Text, if◌then◌else◌, ◌==◌,
}

abbrev pub Timestamp : Type 0
Timestamp = ℕ

-- `Path::components`.
pub data Component : Type 0 where
  prefix : Text → Component
  root_dir : Component
  cur_dir : Component
  parent_dir : Component
  normal : Text → Component

abbrev pub FilePath : Type 0
FilePath = List Component

pub data SensitivityScope : Type 0 where
  never_return_to_mcp : SensitivityScope
  require_explicit_query : SensitivityScope

pub data SupportedFileType : Type 0 where
  markdown : SupportedFileType
  plain_text : SupportedFileType

pub data SourceState : Type 0 where
  active : SourceState
  deleted : SourceState
  excluded : SourceState
  unsupported : SourceState
  error : SourceState

pub data RevisionStatus : Type 0 where
  prepared : RevisionStatus
  indexed : RevisionStatus
  failed : RevisionStatus

pub data SegmentType : Type 0 where
  document_title : SegmentType
  heading : SegmentType
  paragraph : SegmentType
  list : SegmentType
  blockquote : SegmentType
  code_fence : SegmentType
  table : SegmentType
  frontmatter : SegmentType

pub data ScanStatus : Type 0 where
  completed : ScanStatus
  failed : ScanStatus

pub data RetrievalMode : Type 0 where
  lexical : RetrievalMode
  semantic : RetrievalMode
  hybrid : RetrievalMode
  auto : RetrievalMode

pub data FreshnessStatus : Type 0 where
  current : FreshnessStatus
  pending_reindex : FreshnessStatus
  unknown : FreshnessStatus

pub data ExplanationKind : Type 0 where
  lexical_term_overlap : ExplanationKind
  semantic_neighbor : ExplanationKind
  structural_expansion : ExplanationKind

pub data EvidenceOrigin : Type 0 where
  local_index : EvidenceOrigin
  snapshot : Text → Text → EvidenceOrigin

pub data DomainError : Type 0 where
  invalid_retrieval_limit : DomainError
  invalid_token_budget : DomainError
  invalid_timestamp : DomainError
  invalid_identifier : DomainError
  invalid_sensitivity_scope : DomainError
  invalid_file_type : DomainError
  invalid_source_state : DomainError
  invalid_revision_status : DomainError
  invalid_segment_type : DomainError
  invalid_scan_status : DomainError
  invalid_duration : DomainError
  invalid_retrieval_mode : DomainError
  query_empty : DomainError
  query_invalid : Text → DomainError
  retrieval_mode_unavailable : Text → DomainError
  budget_preset_not_found : Text → DomainError

pub data Result {ℓ κ} (E : Type ℓ) (A : Type κ) : Type (ℓ ⊔ κ) where
  ok : A → Result E A
  err : E → Result E A

-- The value of a result, if there is one.
pub Result-cases {ℓ κ} :
    {E : Type ℓ} {A : Type κ} (r : Result E A) → ((e : E) × (r ≡ err e)) ⊎ ((a : A) × (r ≡ ok a))
Result-cases (err e) = inl (e, refl)
Result-cases (ok a) = inr (a, refl)

infixl 5 ◌>>=◌
abbrev pub ◌>>=◌ {ℓ κ μ} :
    {E : Type ℓ} {A : Type κ} {B : Type μ} → Result E A → (A → Result E B) → Result E B
ok a >>= f = f a
err e >>= f = err e

-- `RetrievalLimit::new`, `TokenBudget::new`: both reject zero.
pub new_retrieval_limit : ℕ → Result DomainError ℕ
new_retrieval_limit value = if value == 0 then err invalid_retrieval_limit else ok value

pub new_token_budget : ℕ → Result DomainError ℕ
new_token_budget value = if value == 0 then err invalid_token_budget else ok value

pub record RetrievalQuery : Type 0 where
  pub query : Text
  pub root_ids : List ℕ
  pub file_types : List SupportedFileType
  pub mode : RetrievalMode
  pub limit : ℕ
  pub token_budget : ℕ
  pub include_sensitive : Bool
  pub budget_preset : Option Text

pub record RetrievalSignals (F : Type 0) : Type 0 where
  pub channel : Text
  pub raw_bm25 : Option F
  pub public_score : F
  pub federation_score : Option F
  pub lexical_rank : Option ℕ
  pub semantic_rank : Option ℕ
  pub cosine_similarity : Option F
  pub fusion_score : Option F
  pub embedding_space_id : Option Text

pub record MatchExplanation : Type 0 where
  pub matched_terms : List Text
  pub matched_excerpt : Option Text
  pub explanation_kind : ExplanationKind

pub record RetrievalHit (F : Type 0) : Type 0 where
  pub segment_id : ℕ
  pub revision_id : ℕ
  pub source_file_id : ℕ
  pub root_id : ℕ
  pub relative_path : FilePath
  pub file_type : SupportedFileType
  pub anchor : Text
  pub text : Text
  pub text_hash : Text
  pub score : F
  pub signals : RetrievalSignals F
  pub explanation : MatchExplanation
  pub freshness : FreshnessStatus
  pub sensitivity_scope : Option SensitivityScope
  pub token_estimate : ℕ
  pub truncated : Bool
  pub origin : EvidenceOrigin

pub record RetrievalTelemetry (F : Type 0) : Type 0 where
  pub query_embedding_ms : F
  pub vector_scan_ms : F
  pub active_vectors_examined : ℕ
  pub corrupt_vectors_excluded : ℕ
  pub local_lexical_candidates : ℕ
  pub snapshot_lexical_candidates : ℕ
  pub semantic_candidates : ℕ
  pub candidates_admitted_to_fusion : ℕ
  pub unique_fused_candidates : ℕ
  pub fusion_duplicates_suppressed : ℕ

pub record RetrievalResponse (F : Type 0) : Type 0 where
  pub query : Text
  pub requested_mode : RetrievalMode
  pub mode : RetrievalMode
  pub score_kind : Text
  pub results : List (RetrievalHit F)
  pub token_estimate : ℕ
  pub truncated : Bool
  pub applied_limit : ℕ
  pub applied_token_budget : ℕ
  pub budget_preset : Option Text
  pub duplicates_suppressed : ℕ
  pub warnings : List Text
  pub telemetry : RetrievalTelemetry F
