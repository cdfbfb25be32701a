-- ===== src/Parsing/PlainText.antt =====
-- parsing/plain_text.rs: `split_plain_text`. The counter is a `u32`; it is not wrapped, since a text
-- of fewer than 2 ^ 32 characters has fewer pieces than that.
pub mod Segments
use omni_sem.Base.{
  ℕ, ◌+◌, ◌-◌, max, Bool, List, [], ◌∷◌, ◌++◌, Text, codes, decimal, leb, ◌==◌, if◌then◌else◌,
  length, is_empty,
}
use omni_sem.Domain.{paragraph}
use omni_sem.Parsing.{ParsedSegment}
use omni_sem.Parsing.Chunks.{cut_all}

abbrev pub default_max_segment_chars : ℕ
default_max_segment_chars = 4_096

pub is_newline : ℕ → Bool
is_newline c = c == 10

-- `format!("text:{index}")`.
pub text_anchor : ℕ → Text
text_anchor index = codes "text:" ++ decimal index

-- The segments of the pieces; `index` counts them from 1.
pub push_segments : ℕ → List Text → List ParsedSegment
push_segments index [] = []
push_segments index (chunk ∷ chunks) =
    record {
      segment_type = paragraph;
      anchor = text_anchor index;
      ordinal = index - 1;
      text = chunk;
    }
    ∷ push_segments (index + 1) chunks

unfoldable pub split_plain_text : Text → ℕ → List ParsedSegment
unfolding push_segments
split_plain_text text max_chars =
    if is_empty text
    then record { segment_type = paragraph; anchor = codes "text:1"; ordinal = 0; text = [] } ∷ []
    else if leb (length text) (max max_chars 1)
    then record { segment_type = paragraph; anchor = codes "text:1"; ordinal = 0; text = text } ∷ []
    else push_segments 1 (cut_all is_newline (max max_chars 1) text)
