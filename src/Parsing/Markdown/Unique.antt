-- ===== src/Parsing/Markdown/Unique.antt =====
-- Every event keeps the invariant, so a parsed document has distinct anchors and counted ordinals.
use omni_sem.Base.{
  ℕ, ◌+◌, refl, Bool, false, ◌&&◌, not, Option, none, some, List, [], ◌∷◌, ◌++◌, Text, codes,
  is_empty, arith, Distinct, trim_matches, ends_with_char,
}
use omni_sem.Domain.{SegmentType}
use omni_sem.Parsing.{ParsedSegment}
use omni_sem.Parsing.Chunks.{split_oversized}
use omni_sem.Parsing.Markdown.{
  MarkdownParseState, initial_state, max_segment_chars, push, push_pieces,
}
use omni_sem.Parsing.Markdown.Frontmatter.{split_frontmatter, frontmatter_title}
use omni_sem.Parsing.Markdown.Tags.{TagEnd, Event}
use omni_sem.Parsing.Markdown.Finish.{
  counted_anchor, push_heading, finish_heading, finish_paragraph, finish_blockquote, finish_list,
  finish_table,
}
use omni_sem.Parsing.Markdown.Events.{
  end_tag, handle_event, handle_events, push_frontmatter, push_whole, parse_state, parse_markdown,
}
use omni_sem.Parsing.Markdown.Sound.{Ordinals, IsSound, push-IsSound, push_pieces-IsSound}
use omni_sem.Parsing.Markdown.Kept.{
  append_text-IsSound, text_or_code-IsSound, end_link-IsSound, start_tag-IsSound,
  finish_code-IsSound, push_heading-IsSound, counted_anchor-NoTilde, if-IsSound,
}

initial_state-IsSound : (title : Option Text) → IsSound (record initial_state { title = title })
initial_state-IsSound title = record {
  numbered = tt;
  next = refl;
  named = tt;
  distinct = tt;
  plain = tt;
}

module _ (is_whitespace : ℕ → Bool) where
  finish_paragraph-IsSound :
      (s : MarkdownParseState) → IsSound s → IsSound (finish_paragraph is_whitespace s)
  unfolding finish_paragraph
  finish_paragraph-IsSound s h =
      let paragraph = trim_matches is_whitespace s.text_buf in
      let next = record s { in_paragraph = false; text_buf = [] } in
      let count = s.paragraph_count + 1 in
      let anchor = counted_anchor (codes "paragraph:") count in
      let pieces = split_oversized paragraph max_segment_chars in
      let counted = record next { paragraph_count = count } in
      if-IsSound (is_empty paragraph) next (push_pieces SegmentType.paragraph anchor pieces counted)
        h
        (push_pieces-IsSound SegmentType.paragraph anchor pieces counted
          (counted_anchor-NoTilde (codes "paragraph:") count (omega arith)) h)

  finish_heading-IsSound :
      (s : MarkdownParseState) → IsSound s → IsSound (finish_heading is_whitespace s)
  unfolding finish_heading
  finish_heading-IsSound s h =
      let text = trim_matches is_whitespace s.text_buf in
      let next = record s { in_heading = false; text_buf = [] } in
      if-IsSound (is_empty text) next (push_heading text next) h (push_heading-IsSound text next h)

  end_tag-IsSound :
      (tag : TagEnd) (s : MarkdownParseState) → IsSound s → IsSound (end_tag is_whitespace tag s)
  unfolding end_tag finish_blockquote finish_list finish_table
  end_tag-IsSound TagEnd.heading s h = finish_heading-IsSound s h
  end_tag-IsSound TagEnd.paragraph s h =
      if-IsSound s.in_paragraph (finish_paragraph is_whitespace s) s (finish_paragraph-IsSound s h)
        h
  end_tag-IsSound TagEnd.block_quote s h =
      let text = trim_matches is_whitespace s.blockquote_buf in
      let next = record s { in_blockquote = false; blockquote_buf = [] } in
      let count = s.quote_count + 1 in
      let counted = record next { quote_count = count } in
      if-IsSound (is_empty text) next
        (push SegmentType.blockquote (counted_anchor (codes "blockquote:") count) text counted) h
        (push-IsSound SegmentType.blockquote (counted_anchor (codes "blockquote:") count) text
          counted (counted_anchor-NoTilde (codes "blockquote:") count (omega arith)) h)
  end_tag-IsSound TagEnd.list s h =
      let text = trim_matches is_whitespace s.list_buf in
      let next = record s { in_list = false; list_buf = [] } in
      let count = s.list_count + 1 in
      let counted = record next { list_count = count } in
      if-IsSound (is_empty text) next
        (push SegmentType.list (counted_anchor (codes "list:") count) text counted) h
        (push-IsSound SegmentType.list (counted_anchor (codes "list:") count) text counted
          (counted_anchor-NoTilde (codes "list:") count (omega arith)) h)
  end_tag-IsSound TagEnd.item s h = h
  end_tag-IsSound TagEnd.code_block s h = finish_code-IsSound s h
  end_tag-IsSound TagEnd.table s h =
      let text = trim_matches is_whitespace s.table_buf in
      let next = record s { in_table = false; table_buf = [] } in
      let count = s.table_count + 1 in
      let counted = record next { table_count = count } in
      if-IsSound (is_empty text) next
        (push SegmentType.table (counted_anchor (codes "table:") count) text counted) h
        (push-IsSound SegmentType.table (counted_anchor (codes "table:") count) text counted
          (counted_anchor-NoTilde (codes "table:") count (omega arith)) h)
  end_tag-IsSound TagEnd.table_head s h =
      if-IsSound (s.in_table && not (is_empty s.table_buf))
        (record s { table_buf = s.table_buf ++ codes "\n" }) s h h
  end_tag-IsSound TagEnd.table_row s h =
      if-IsSound (s.in_table && not (ends_with_char 10 s.table_buf))
        (record s { table_buf = s.table_buf ++ codes "\n" }) s h h
  end_tag-IsSound TagEnd.link s h = end_link-IsSound s h
  end_tag-IsSound TagEnd.other s h = h

  handle_event-IsSound :
      (event : Event) (s : MarkdownParseState)
      → IsSound s
      → IsSound (handle_event is_whitespace event s)
  unfolding handle_event
  handle_event-IsSound (Event.start tag) s h = start_tag-IsSound tag s h
  handle_event-IsSound (Event.ended tag) s h = end_tag-IsSound tag s h
  handle_event-IsSound (Event.text value) s h = text_or_code-IsSound value s h
  handle_event-IsSound (Event.code value) s h = text_or_code-IsSound value s h
  handle_event-IsSound Event.soft_break s h = append_text-IsSound (codes " ") s h
  handle_event-IsSound Event.hard_break s h = append_text-IsSound (codes " ") s h
  handle_event-IsSound Event.rule s h = h
  handle_event-IsSound Event.other s h = h

  handle_events-IsSound :
      (events : List Event) (s : MarkdownParseState)
      → IsSound s
      → IsSound (handle_events is_whitespace events s)
  unfolding handle_events
  handle_events-IsSound [] s h = h
  handle_events-IsSound (event ∷ events) s h =
      handle_events-IsSound events (handle_event is_whitespace event s)
        (handle_event-IsSound event s h)

  push_frontmatter-IsSound :
      (frontmatter : Option Text)
      → IsSound (push_frontmatter is_whitespace frontmatter initial_state)
  unfolding push_frontmatter
  push_frontmatter-IsSound none = initial_state-IsSound none
  push_frontmatter-IsSound (some frontmatter) =
      elim (frontmatter_title is_whitespace frontmatter)
        as (λ o. IsSound (
          push SegmentType.frontmatter (codes "frontmatter") frontmatter (elim o [
            | some front_title ↦ record initial_state { title = some front_title }
            | none ↦ initial_state
          ]))) [
            | some front_title ↦
                push-IsSound SegmentType.frontmatter (codes "frontmatter") frontmatter
                  (record initial_state { title = some front_title }) (omega arith)
                  (initial_state-IsSound (some front_title))
            | none ↦
                push-IsSound SegmentType.frontmatter (codes "frontmatter") frontmatter initial_state
                  (omega arith) (initial_state-IsSound none)
          ]

  push_whole-IsSound :
      (body : Text) (s : MarkdownParseState) → IsSound s → IsSound (push_whole is_whitespace body s)
  unfolding push_whole
  push_whole-IsSound body s h =
      let text = trim_matches is_whitespace body in
      let whole = push SegmentType.paragraph (codes "paragraph:1") text s in
      if-IsSound (is_empty s.segments && not (is_empty text)) whole s
        (push-IsSound SegmentType.paragraph (codes "paragraph:1") text s (omega arith) h) h

  parse_state-IsSound :
      (parse_events : Text → List Event) (input : Text)
      → IsSound (parse_state is_whitespace parse_events input)
  unfolding parse_state
  parse_state-IsSound parse_events input =
      let front = (split_frontmatter input).0 in
      let body = (split_frontmatter input).1 in
      let before = push_frontmatter is_whitespace front initial_state in
      push_whole-IsSound body (handle_events is_whitespace (parse_events body) before)
        (handle_events-IsSound (parse_events body) before (push_frontmatter-IsSound front))

-- Whatever events the Markdown library gives, in the document that `parse_markdown` makes the anchors
-- of the segments are distinct and the ordinals are 0, 1, 2, ....
pub parse_markdown_lem :
    (is_whitespace : ℕ → Bool) (parse_events : Text → List Event) (input : Text)
    → Distinct
        (λ (s : ParsedSegment). s.anchor)
        (parse_markdown is_whitespace parse_events input).segments
      × Ordinals 0 (parse_markdown is_whitespace parse_events input).segments
unfolding parse_markdown
parse_markdown_lem is_whitespace parse_events input =
    let h = parse_state-IsSound is_whitespace parse_events input in (h.distinct, h.numbered)
