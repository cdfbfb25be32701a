-- ===== src/Domain/Names.antt =====
-- The storage tokens of the enums of domain.rs: `as_str` and `from_str`.
use omni_sem.Base.{◌≡◌, ◌↔◌, subst, refl, Text, codes, text_eq, text_eq_iff, if◌then◌else◌, arith}
use omni_sem.Domain.{
  SensitivityScope, invalid_sensitivity_scope, SupportedFileType, invalid_file_type, SourceState,
  invalid_source_state, RevisionStatus, invalid_revision_status, SegmentType, invalid_segment_type,
  ScanStatus, invalid_scan_status, RetrievalMode, invalid_retrieval_mode, DomainError, Result, ok,
  err,
}

pub scope_as_str : SensitivityScope → Text
scope_as_str SensitivityScope.never_return_to_mcp = codes "never_return_to_mcp"
scope_as_str SensitivityScope.require_explicit_query = codes "require_explicit_query"

unfoldable pub scope_from_str : Text → Result DomainError SensitivityScope
scope_from_str value =
    if text_eq value (codes "never_return_to_mcp")
    then ok SensitivityScope.never_return_to_mcp
    else if text_eq value (codes "require_explicit_query")
    then ok SensitivityScope.require_explicit_query
    else err invalid_sensitivity_scope

pub file_type_as_str : SupportedFileType → Text
file_type_as_str SupportedFileType.markdown = codes "markdown"
file_type_as_str SupportedFileType.plain_text = codes "plain_text"

pub file_type_from_str : Text → Result DomainError SupportedFileType
file_type_from_str value =
    if text_eq value (codes "markdown")
    then ok SupportedFileType.markdown
    else if text_eq value (codes "plain_text")
    then ok SupportedFileType.plain_text
    else err invalid_file_type

pub source_state_as_str : SourceState → Text
source_state_as_str SourceState.active = codes "active"
source_state_as_str SourceState.deleted = codes "deleted"
source_state_as_str SourceState.excluded = codes "excluded"
source_state_as_str SourceState.unsupported = codes "unsupported"
source_state_as_str SourceState.error = codes "error"

pub source_state_from_str : Text → Result DomainError SourceState
source_state_from_str value =
    if text_eq value (codes "active")
    then ok SourceState.active
    else if text_eq value (codes "deleted")
    then ok SourceState.deleted
    else if text_eq value (codes "excluded")
    then ok SourceState.excluded
    else if text_eq value (codes "unsupported")
    then ok SourceState.unsupported
    else if text_eq value (codes "error")
    then ok SourceState.error
    else err invalid_source_state

pub revision_status_as_str : RevisionStatus → Text
revision_status_as_str RevisionStatus.prepared = codes "prepared"
revision_status_as_str RevisionStatus.indexed = codes "indexed"
revision_status_as_str RevisionStatus.failed = codes "failed"

pub revision_status_from_str : Text → Result DomainError RevisionStatus
revision_status_from_str value =
    if text_eq value (codes "prepared")
    then ok RevisionStatus.prepared
    else if text_eq value (codes "indexed")
    then ok RevisionStatus.indexed
    else if text_eq value (codes "failed")
    then ok RevisionStatus.failed
    else err invalid_revision_status

pub segment_type_as_str : SegmentType → Text
segment_type_as_str SegmentType.document_title = codes "document_title"
segment_type_as_str SegmentType.heading = codes "heading"
segment_type_as_str SegmentType.paragraph = codes "paragraph"
segment_type_as_str SegmentType.list = codes "list"
segment_type_as_str SegmentType.blockquote = codes "blockquote"
segment_type_as_str SegmentType.code_fence = codes "code_fence"
segment_type_as_str SegmentType.table = codes "table"
segment_type_as_str SegmentType.frontmatter = codes "frontmatter"

pub segment_type_from_str : Text → Result DomainError SegmentType
segment_type_from_str value =
    if text_eq value (codes "document_title")
    then ok SegmentType.document_title
    else if text_eq value (codes "heading")
    then ok SegmentType.heading
    else if text_eq value (codes "paragraph")
    then ok SegmentType.paragraph
    else if text_eq value (codes "list")
    then ok SegmentType.list
    else if text_eq value (codes "blockquote")
    then ok SegmentType.blockquote
    else if text_eq value (codes "code_fence")
    then ok SegmentType.code_fence
    else if text_eq value (codes "table")
    then ok SegmentType.table
    else if text_eq value (codes "frontmatter")
    then ok SegmentType.frontmatter
    else err invalid_segment_type

pub scan_status_as_str : ScanStatus → Text
scan_status_as_str ScanStatus.completed = codes "completed"
scan_status_as_str ScanStatus.failed = codes "failed"

pub scan_status_from_str : Text → Result DomainError ScanStatus
scan_status_from_str value =
    if text_eq value (codes "completed")
    then ok ScanStatus.completed
    else if text_eq value (codes "failed")
    then ok ScanStatus.failed
    else err invalid_scan_status

pub mode_as_str : RetrievalMode → Text
mode_as_str RetrievalMode.lexical = codes "lexical"
mode_as_str RetrievalMode.semantic = codes "semantic"
mode_as_str RetrievalMode.hybrid = codes "hybrid"
mode_as_str RetrievalMode.auto = codes "auto"

pub mode_from_str : Text → Result DomainError RetrievalMode
mode_from_str value =
    if text_eq value (codes "lexical")
    then ok RetrievalMode.lexical
    else if text_eq value (codes "semantic")
    then ok RetrievalMode.semantic
    else if text_eq value (codes "hybrid")
    then ok RetrievalMode.hybrid
    else if text_eq value (codes "auto")
    then ok RetrievalMode.auto
    else err invalid_retrieval_mode

-- A text decodes to a value exactly when it is the token of that value.
abbrev pub IsCodec : {T : Type 0} → (T → Text) → (Text → Result DomainError T) → Type 0
IsCodec {T} as_str from_str = (s : Text) (x : T) → (from_str s ≡ ok x) ↔ (as_str x ≡ s)

codec :
    {T : Type 0} {as_str : T → Text} {from_str : Text → Result DomainError T}
    → ((x : T) → from_str (as_str x) ≡ ok x)
    → ((s : Text) (x : T) → from_str s ≡ ok x → as_str x ≡ s)
    → IsCodec as_str from_str
codec {from_str} decodes exact s x = (exact s x, λ e. subst (λ t. from_str t ≡ ok x) e (decodes x))

scope_decodes : (x : SensitivityScope) → scope_from_str (scope_as_str x) ≡ ok x
unfolding scope_as_str scope_from_str text_eq
scope_decodes SensitivityScope.never_return_to_mcp = refl
scope_decodes SensitivityScope.require_explicit_query = refl

scope_exact : (s : Text) (x : SensitivityScope) → scope_from_str s ≡ ok x → scope_as_str x ≡ s
unfolding scope_as_str scope_from_str
scope_exact s x h = ground (
  arith,
  text_eq_iff s (codes "never_return_to_mcp"),
  text_eq_iff s (codes "require_explicit_query"),
)

file_type_decodes : (x : SupportedFileType) → file_type_from_str (file_type_as_str x) ≡ ok x
unfolding file_type_as_str file_type_from_str text_eq
file_type_decodes SupportedFileType.markdown = refl
file_type_decodes SupportedFileType.plain_text = refl

file_type_exact :
    (s : Text) (x : SupportedFileType) → file_type_from_str s ≡ ok x → file_type_as_str x ≡ s
unfolding file_type_as_str file_type_from_str
file_type_exact s x h =
    ground (arith, text_eq_iff s (codes "markdown"), text_eq_iff s (codes "plain_text"))

source_state_decodes : (x : SourceState) → source_state_from_str (source_state_as_str x) ≡ ok x
unfolding source_state_as_str source_state_from_str text_eq
source_state_decodes SourceState.active = refl
source_state_decodes SourceState.deleted = refl
source_state_decodes SourceState.excluded = refl
source_state_decodes SourceState.unsupported = refl
source_state_decodes SourceState.error = refl

source_state_exact :
    (s : Text) (x : SourceState) → source_state_from_str s ≡ ok x → source_state_as_str x ≡ s
unfolding source_state_as_str source_state_from_str
source_state_exact s x h = ground (
  arith,
  text_eq_iff s (codes "active"),
  text_eq_iff s (codes "deleted"),
  text_eq_iff s (codes "excluded"),
  text_eq_iff s (codes "unsupported"),
  text_eq_iff s (codes "error"),
)

revision_status_decodes :
    (x : RevisionStatus) → revision_status_from_str (revision_status_as_str x) ≡ ok x
unfolding revision_status_as_str revision_status_from_str text_eq
revision_status_decodes RevisionStatus.prepared = refl
revision_status_decodes RevisionStatus.indexed = refl
revision_status_decodes RevisionStatus.failed = refl

revision_status_exact :
    (s : Text) (x : RevisionStatus)
    → revision_status_from_str s ≡ ok x
    → revision_status_as_str x ≡ s
unfolding revision_status_as_str revision_status_from_str
revision_status_exact s x h = ground (
  arith,
  text_eq_iff s (codes "prepared"),
  text_eq_iff s (codes "indexed"),
  text_eq_iff s (codes "failed"),
)

segment_type_decodes : (x : SegmentType) → segment_type_from_str (segment_type_as_str x) ≡ ok x
unfolding segment_type_as_str segment_type_from_str text_eq
segment_type_decodes SegmentType.document_title = refl
segment_type_decodes SegmentType.heading = refl
segment_type_decodes SegmentType.paragraph = refl
segment_type_decodes SegmentType.list = refl
segment_type_decodes SegmentType.blockquote = refl
segment_type_decodes SegmentType.code_fence = refl
segment_type_decodes SegmentType.table = refl
segment_type_decodes SegmentType.frontmatter = refl

segment_type_exact :
    (s : Text) (x : SegmentType) → segment_type_from_str s ≡ ok x → segment_type_as_str x ≡ s
unfolding segment_type_as_str segment_type_from_str
segment_type_exact s x h = ground (
  arith,
  text_eq_iff s (codes "document_title"),
  text_eq_iff s (codes "heading"),
  text_eq_iff s (codes "paragraph"),
  text_eq_iff s (codes "list"),
  text_eq_iff s (codes "blockquote"),
  text_eq_iff s (codes "code_fence"),
  text_eq_iff s (codes "table"),
  text_eq_iff s (codes "frontmatter"),
)

scan_status_decodes : (x : ScanStatus) → scan_status_from_str (scan_status_as_str x) ≡ ok x
unfolding scan_status_as_str scan_status_from_str text_eq
scan_status_decodes ScanStatus.completed = refl
scan_status_decodes ScanStatus.failed = refl

scan_status_exact :
    (s : Text) (x : ScanStatus) → scan_status_from_str s ≡ ok x → scan_status_as_str x ≡ s
unfolding scan_status_as_str scan_status_from_str
scan_status_exact s x h =
    ground (arith, text_eq_iff s (codes "completed"), text_eq_iff s (codes "failed"))

mode_decodes : (x : RetrievalMode) → mode_from_str (mode_as_str x) ≡ ok x
unfolding mode_as_str mode_from_str text_eq
mode_decodes RetrievalMode.lexical = refl
mode_decodes RetrievalMode.semantic = refl
mode_decodes RetrievalMode.hybrid = refl
mode_decodes RetrievalMode.auto = refl

mode_exact : (s : Text) (x : RetrievalMode) → mode_from_str s ≡ ok x → mode_as_str x ≡ s
unfolding mode_as_str mode_from_str
mode_exact s x h = ground (
  arith,
  text_eq_iff s (codes "lexical"),
  text_eq_iff s (codes "semantic"),
  text_eq_iff s (codes "hybrid"),
  text_eq_iff s (codes "auto"),
)

-- For each of the seven stored enums, a text decodes to a value exactly when it is the token of that
-- value.
pub storage_tokens :
    IsCodec scope_as_str scope_from_str
    × IsCodec file_type_as_str file_type_from_str
    × IsCodec source_state_as_str source_state_from_str
    × IsCodec revision_status_as_str revision_status_from_str
    × IsCodec segment_type_as_str segment_type_from_str
    × IsCodec scan_status_as_str scan_status_from_str
    × IsCodec mode_as_str mode_from_str
storage_tokens = (
  codec scope_decodes scope_exact,
  codec file_type_decodes file_type_exact,
  codec source_state_decodes source_state_exact,
  codec revision_status_decodes revision_status_exact,
  codec segment_type_decodes segment_type_exact,
  codec scan_status_decodes scan_status_exact,
  codec mode_decodes mode_exact,
)
