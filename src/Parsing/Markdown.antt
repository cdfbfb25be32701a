-- ===== src/Parsing/Markdown.antt =====
-- parsing/markdown.rs: the state of the Markdown parser and the two operations that everything else
-- uses, `push` and `append_text`. The counters are `u32` in the source; they are not wrapped, since a
-- document of fewer than 2 ^ 32 characters makes fewer segments than that.
pub mod Slug
pub mod Frontmatter
pub mod Partition
pub mod Tags
pub mod Finish
pub mod Events
pub mod Anchors
pub mod Sound
pub mod Kept
pub mod Unique
mod Examples
use omni_sem.Base.{
  ℕ, ◌+◌, Bool, true, false, ◌||◌, Option, none, some, List, [], ◌∷◌, ◌++◌, Text, codes, decimal,
  text_eq, if◌then◌else◌, ◌==◌,
}
use omni_sem.Domain.{SegmentType}
use omni_sem.Parsing.{ParsedSegment}
use omni_sem.Parsing.Registry.{ParserWarning}

abbrev pub max_segment_chars : ℕ
max_segment_chars = 8_192

-- `HashMap<String, u32>`: how often each base anchor was used.
abbrev pub AnchorCounts : Type 0
AnchorCounts = List (Text × ℕ)

unfoldable pub count_of : Text → AnchorCounts → ℕ
count_of base [] = 0
count_of base ((key, n) ∷ rest) =
    let later = count_of base rest in if text_eq key base then n else later

-- `*anchors.entry(base).or_insert(0) += 1`
unfoldable pub count_up : Text → AnchorCounts → AnchorCounts
count_up base [] = (base, 1) ∷ []
count_up base ((key, n) ∷ rest) =
    let later = count_up base rest in
    if text_eq key base then (key, n + 1) ∷ rest else (key, n) ∷ later

pub record MarkdownParseState : Type 0 where
  pub segments : List ParsedSegment
  pub warnings : List ParserWarning
  pub title : Option Text
  pub ordinal : ℕ
  pub anchors : AnchorCounts
  pub heading_stack : List (ℕ × Text)
  pub text_buf : Text
  pub blockquote_buf : Text
  pub list_buf : Text
  pub code_buf : Text
  pub code_lang : Text
  pub table_buf : Text
  -- The source's vector, last member first.
  pub link_texts : List (Text × Text)
  pub in_heading : Bool
  pub heading_level : ℕ
  pub in_paragraph : Bool
  pub in_blockquote : Bool
  pub in_list : Bool
  pub in_item : Bool
  pub in_code : Bool
  pub in_table : Bool
  pub paragraph_count : ℕ
  pub list_count : ℕ
  pub quote_count : ℕ
  pub code_count : ℕ
  pub table_count : ℕ

-- `MarkdownParseState { heading_level: 1, ..default() }`
abbrev pub initial_state : MarkdownParseState
initial_state = record {
  segments = [];
  warnings = [];
  title = none;
  ordinal = 0;
  anchors = [];
  heading_stack = [];
  text_buf = [];
  blockquote_buf = [];
  list_buf = [];
  code_buf = [];
  code_lang = [];
  table_buf = [];
  link_texts = [];
  in_heading = false;
  heading_level = 1;
  in_paragraph = false;
  in_blockquote = false;
  in_list = false;
  in_item = false;
  in_code = false;
  in_table = false;
  paragraph_count = 0;
  list_count = 0;
  quote_count = 0;
  code_count = 0;
  table_count = 0;
}

-- `if *count == 1 { base_anchor } else { format!("{base_anchor}~{count}") }`
unfoldable pub numbered_anchor : Text → ℕ → Text
numbered_anchor base count = if count == 1 then base else base ++ (codes "~" ++ decimal count)

unfoldable pub push : SegmentType → Text → Text → MarkdownParseState → MarkdownParseState
unfolding numbered_anchor count_of count_up
push segment_type base_anchor text state =
    let anchors = count_up base_anchor state.anchors in
    let segment : ParsedSegment = record {
      segment_type = segment_type;
      anchor = numbered_anchor base_anchor (count_of base_anchor anchors);
      ordinal = state.ordinal;
      text = text;
    } in
    record state {
      segments = state.segments ++ segment ∷ [];
      ordinal = state.ordinal + 1;
      anchors = anchors;
    }

unfoldable pub append_text : Text → MarkdownParseState → MarkdownParseState
append_text value state =
    if state.in_heading || state.in_paragraph
    then record state { text_buf = state.text_buf ++ value }
    else if state.in_blockquote
    then record state { blockquote_buf = state.blockquote_buf ++ value }
    else if state.in_item
    then record state { list_buf = state.list_buf ++ value }
    else if state.in_table
    then record state { table_buf = state.table_buf ++ value }
    else state

-- `push` of each piece, in order.
unfoldable pub push_pieces :
    SegmentType → Text → List Text → MarkdownParseState → MarkdownParseState
push_pieces segment_type base_anchor [] state = state
push_pieces segment_type base_anchor (piece ∷ pieces) state =
    push_pieces segment_type base_anchor pieces (push segment_type base_anchor piece state)
