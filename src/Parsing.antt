-- ===== src/Parsing.antt =====
-- crates/omnisem-core/src/parsing: the segments that parsers produce.
pub mod Chunks
pub mod Markdown
pub mod PlainText
pub mod Registry
mod Examples
use omni_sem.Base.{ℕ, Text}
use omni_sem.Domain.{SegmentType}

pub record ParsedSegment : Type 0 where
  pub segment_type : SegmentType
  pub anchor : Text
  pub ordinal : ℕ
  pub text : Text
