-- ===== src/Parsing/Markdown/Events.antt =====
-- parsing/markdown.rs: what the parser does on each event, and `parse_markdown`. `parse_events` is the
-- parser of `pulldown-cmark` with the code's options, and `is_whitespace` is `char::is_whitespace`.
use omni_sem.Base.{
  ℕ, Bool, false, not, ◌&&◌, Option, none, some, List, [], ◌∷◌, ◌++◌, Text, codes, if◌then◌else◌,
  is_empty, trim_matches, ends_with_char,
}
use omni_sem.Domain.{SegmentType}
use omni_sem.Parsing.Registry.{ParsedDocument}
use omni_sem.Parsing.Markdown.{MarkdownParseState, initial_state, push, append_text}
use omni_sem.Parsing.Markdown.Frontmatter.{split_frontmatter, frontmatter_title}
use omni_sem.Parsing.Markdown.Tags.{TagEnd, Event, start_tag, text_or_code, end_link}
use omni_sem.Parsing.Markdown.Finish.{
  finish_heading, finish_paragraph, finish_blockquote, finish_list, finish_code, finish_table,
}

module _ (is_whitespace : ℕ → Bool) where
  unfoldable pub end_tag : TagEnd → MarkdownParseState → MarkdownParseState
  unfolding finish_heading finish_paragraph finish_blockquote finish_list finish_code finish_table
      end_link
  end_tag TagEnd.heading state = finish_heading is_whitespace state
  end_tag TagEnd.paragraph state =
      if state.in_paragraph then finish_paragraph is_whitespace state else state
  end_tag TagEnd.block_quote state = finish_blockquote is_whitespace state
  end_tag TagEnd.list state = finish_list is_whitespace state
  end_tag TagEnd.item state = record state { in_item = false }
  end_tag TagEnd.code_block state = finish_code state
  end_tag TagEnd.table state = finish_table is_whitespace state
  end_tag TagEnd.table_head state =
      if state.in_table && not (is_empty state.table_buf)
      then record state { table_buf = state.table_buf ++ codes "\n" }
      else state
  end_tag TagEnd.table_row state =
      if state.in_table && not (ends_with_char 10 state.table_buf)
      then record state { table_buf = state.table_buf ++ codes "\n" }
      else state
  end_tag TagEnd.link state = end_link state
  end_tag TagEnd.other state = state

  unfoldable pub handle_event : Event → MarkdownParseState → MarkdownParseState
  unfolding start_tag end_tag text_or_code append_text
  handle_event (Event.start tag) state = start_tag tag state
  handle_event (Event.ended tag) state = end_tag tag state
  handle_event (Event.text value) state = text_or_code value state
  handle_event (Event.code value) state = text_or_code value state
  handle_event Event.soft_break state = append_text (codes " ") state
  handle_event Event.hard_break state = append_text (codes " ") state
  handle_event Event.rule state = record state {
    warnings =
        state.warnings
        ++ record {
          code = codes "thematic_break";
          message = codes "thematic breaks are ignored as segments";
        }
          ∷ [];
  }
  handle_event Event.other state = state

  unfoldable pub handle_events : List Event → MarkdownParseState → MarkdownParseState
  unfolding handle_event
  handle_events [] state = state
  handle_events (event ∷ events) state = handle_events events (handle_event event state)

  -- The title and the segment of the frontmatter.
  unfoldable pub push_frontmatter : Option Text → MarkdownParseState → MarkdownParseState
  unfolding push frontmatter_title
  push_frontmatter none state = state
  push_frontmatter (some frontmatter) state =
      push SegmentType.frontmatter (codes "frontmatter") frontmatter
        (elim (frontmatter_title is_whitespace frontmatter) [
          | some front_title ↦ record state { title = some front_title }
          | none ↦ state
        ])

  -- The whole body as one paragraph, where no event made a segment.
  unfoldable pub push_whole : Text → MarkdownParseState → MarkdownParseState
  unfolding push
  push_whole body state =
      let trimmed = trim_matches is_whitespace body in
      if is_empty state.segments && not (is_empty trimmed)
      then push SegmentType.paragraph (codes "paragraph:1") trimmed state
      else state

  module _ (parse_events : Text → List Event) where
    unfoldable pub parse_state : Text → MarkdownParseState
    unfolding split_frontmatter push_frontmatter handle_events push_whole
    parse_state input =
        let (frontmatter, body) = split_frontmatter input in
        push_whole body
          (handle_events (parse_events body) (push_frontmatter frontmatter initial_state))

    unfoldable pub parse_markdown : Text → ParsedDocument
    unfolding parse_state
    parse_markdown input =
        let state = parse_state input in
        record { title = state.title; segments = state.segments; warnings = state.warnings }
