-- ===== src/Parsing/Markdown/Finish.antt =====
-- parsing/markdown.rs: what the parser does where an element ends. `is_whitespace` is
-- `char::is_whitespace`.
use omni_sem.Base.{
  ℕ, ◌+◌, Bool, false, not, ◌&&◌, some, [], ◌∷◌, ◌++◌, Text, codes, decimal, if◌then◌else◌,
  is_empty, is_some, map, filter, ltb, ◌==◌, trim_matches, trim_end, join,
}
use omni_sem.Domain.{SegmentType}
use omni_sem.Parsing.Chunks.{split_oversized}
use omni_sem.Parsing.Markdown.{MarkdownParseState, max_segment_chars, push, push_pieces}
use omni_sem.Parsing.Markdown.Slug.{slugify}

-- `format!("{prefix}{count}")`
unfoldable pub counted_anchor : Text → ℕ → Text
counted_anchor prefix count = prefix ++ decimal count

unfoldable pub code_anchor : Text → ℕ → Text
code_anchor lang count = codes "code-fence:" ++ (lang ++ (codes ":" ++ decimal count))

unfoldable pub finish_code : MarkdownParseState → MarkdownParseState
unfolding push_pieces
finish_code state =
    let lang = if is_empty state.code_lang then codes "text" else slugify state.code_lang in
    let code_count = state.code_count + 1 in
    push_pieces SegmentType.code_fence (code_anchor lang code_count)
      (split_oversized (trim_end (λ c. c == 10) state.code_buf) max_segment_chars)
      (record state { in_code = false; code_count = code_count; code_buf = []; code_lang = [] })

-- `self.heading_stack.retain(..)`, then the new heading.
unfoldable pub stack_heading : Text → MarkdownParseState → MarkdownParseState
stack_heading slug state = record state {
  heading_stack =
      filter (λ entry. ltb entry.0 state.heading_level) state.heading_stack
      ++ (state.heading_level, slug) ∷ [];
}

unfoldable pub heading_anchor : MarkdownParseState → Text
heading_anchor state =
    codes "heading:" ++ join (codes "/") (map (λ entry. entry.1) state.heading_stack)

unfoldable pub push_heading : Text → MarkdownParseState → MarkdownParseState
unfolding stack_heading heading_anchor push
push_heading heading_text state =
    let slug = slugify heading_text in
    let stacked = stack_heading slug state in
    let path = heading_anchor stacked in
    push SegmentType.heading path heading_text (
      if not (is_some state.title) && (state.heading_level == 1)
      then push SegmentType.document_title (codes "title:" ++ slug) heading_text
          (record stacked { title = some heading_text })
      else stacked)

module _ (is_whitespace : ℕ → Bool) where
  unfoldable pub finish_heading : MarkdownParseState → MarkdownParseState
  unfolding push_heading
  finish_heading state =
      let heading_text = trim_matches is_whitespace state.text_buf in
      let next = record state { in_heading = false; text_buf = [] } in
      if is_empty heading_text then next else push_heading heading_text next

  unfoldable pub finish_paragraph : MarkdownParseState → MarkdownParseState
  unfolding push_pieces counted_anchor
  finish_paragraph state =
      let paragraph = trim_matches is_whitespace state.text_buf in
      let next = record state { in_paragraph = false; text_buf = [] } in
      let count = state.paragraph_count + 1 in
      if is_empty paragraph
      then next
      else push_pieces SegmentType.paragraph (counted_anchor (codes "paragraph:") count)
          (split_oversized paragraph max_segment_chars) (record next { paragraph_count = count })

  unfoldable pub finish_blockquote : MarkdownParseState → MarkdownParseState
  unfolding push counted_anchor
  finish_blockquote state =
      let quote = trim_matches is_whitespace state.blockquote_buf in
      let next = record state { in_blockquote = false; blockquote_buf = [] } in
      let count = state.quote_count + 1 in
      if is_empty quote
      then next
      else push SegmentType.blockquote (counted_anchor (codes "blockquote:") count) quote
          (record next { quote_count = count })

  unfoldable pub finish_list : MarkdownParseState → MarkdownParseState
  unfolding push counted_anchor
  finish_list state =
      let list = trim_matches is_whitespace state.list_buf in
      let next = record state { in_list = false; list_buf = [] } in
      let count = state.list_count + 1 in
      if is_empty list
      then next
      else push SegmentType.list (counted_anchor (codes "list:") count) list
          (record next { list_count = count })

  unfoldable pub finish_table : MarkdownParseState → MarkdownParseState
  unfolding push counted_anchor
  finish_table state =
      let table = trim_matches is_whitespace state.table_buf in
      let next = record state { in_table = false; table_buf = [] } in
      let count = state.table_count + 1 in
      if is_empty table
      then next
      else push SegmentType.table (counted_anchor (codes "table:") count) table
          (record next { table_count = count })
