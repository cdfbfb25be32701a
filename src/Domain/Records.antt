-- ===== src/Domain/Records.antt =====
-- The records of domain.rs that discovery, indexing and storage share.
use omni_sem.Base.{ℕ, Option, Bool, List, Text}
use omni_sem.Domain.{
  Timestamp, FilePath, SensitivityScope, SupportedFileType, SourceState, RevisionStatus,
  SegmentType, ScanStatus,
}

pub record SensitivityTag : Type 0 where
  pub pattern : Text
  pub scope : SensitivityScope

pub record Root : Type 0 where
  pub id : ℕ
  pub canonical_path : FilePath
  pub display_name : Text
  pub include_patterns : List Text
  pub exclude_patterns : List Text
  pub sensitivity_tags : List SensitivityTag
  pub follow_symlinks : Bool
  pub enabled : Bool
  pub created_at : Timestamp
  pub updated_at : Timestamp
  pub config_fingerprint : Text

pub record DiscoveredDocument : Type 0 where
  pub root_id : ℕ
  pub canonical_path : FilePath
  pub relative_path : FilePath
  pub size_bytes : ℕ
  pub modified_at : Timestamp
  pub file_type : SupportedFileType

pub record SourceFile : Type 0 where
  pub id : ℕ
  pub root_id : ℕ
  pub relative_path : FilePath
  pub canonical_path_hash : Text
  pub file_type : SupportedFileType
  pub size_bytes : ℕ
  pub modified_at : Option Timestamp
  pub current_revision_id : Option ℕ
  pub state : SourceState
  pub first_seen_at : Timestamp
  pub last_seen_at : Timestamp

pub record Revision : Type 0 where
  pub id : ℕ
  pub source_file_id : ℕ
  pub content_hash : Text
  pub parser_id : Text
  pub parser_version : Text
  pub extracted_text_hash : Option Text
  pub observed_at : Timestamp
  pub indexed_at : Option Timestamp
  pub status : RevisionStatus
  pub error_code : Option Text
  pub error_message : Option Text

-- The metadata, a JSON value, is always the empty object.
pub record Segment : Type 0 where
  pub id : ℕ
  pub revision_id : ℕ
  pub segment_type : SegmentType
  pub anchor : Text
  pub ordinal : ℕ
  pub text : Text
  pub text_hash : Text
  pub token_count : Option ℕ
  pub sensitivity_scope : Option SensitivityScope

pub record ScanRun : Type 0 where
  pub id : ℕ
  pub root_id : ℕ
  pub started_at : Timestamp
  pub completed_at : Option Timestamp
  pub status : ScanStatus
  pub additions : ℕ
  pub modifications : ℕ
  pub unchanged : ℕ
  pub deletions : ℕ
  pub skipped : ℕ
  pub failures : ℕ
  pub segments_indexed : ℕ
  pub error_code : Option Text
