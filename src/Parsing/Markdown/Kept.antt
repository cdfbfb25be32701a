-- ===== src/Parsing/Markdown/Kept.antt =====
-- What each part of an event does keeps the invariant.
use omni_sem.Base.{
  ℕ, ◌+◌, ◌≢◌, Bool, true, false, ◌&&◌, ◌||◌, not, some, List, [], ◌∷◌, ◌++◌, Text, codes, decimal,
  decimal-All, if◌then◌else◌, is_empty, is_some, map, filter, ltb, ◌==◌, arith, All, All-append,
  All-filter, trim_end, join, ends_with_char,
}
use omni_sem.Domain.{SegmentType}
use omni_sem.Parsing.Chunks.{split_oversized}
use omni_sem.Parsing.Markdown.{MarkdownParseState, max_segment_chars, push, append_text}
use omni_sem.Parsing.Markdown.Slug.{slugify, slugify-IsSlug, NoTilde, Dashed-NoTilde}
use omni_sem.Parsing.Markdown.Tags.{Tag, fenced, indented, start_tag, text_or_code, end_link}
use omni_sem.Parsing.Markdown.Finish.{
  counted_anchor, code_anchor, stack_heading, heading_anchor, push_heading, finish_code,
}
use omni_sem.Parsing.Markdown.Sound.{IsSound, push-IsSound, push_pieces-IsSound}

slugify-NoTilde : (t : Text) → NoTilde (slugify t)
slugify-NoTilde t = Dashed-NoTilde (slugify-IsSlug t).0

decimal-NoTilde : (n : ℕ) → NoTilde (decimal n)
decimal-NoTilde n = decimal-All (λ c. c ≢ 126) (λ c h. λ e. absurd (omega (arith, h, e))) n

append-NoTilde : (s t : Text) → NoTilde s → NoTilde t → NoTilde (s ++ t)
append-NoTilde = All-append (λ c. c ≢ 126)

join-NoTilde :
    (entries : List (ℕ × Text))
    → All (λ (entry : ℕ × Text). NoTilde entry.1) entries
    → NoTilde (join (codes "/") (map (λ (entry : ℕ × Text). entry.1) entries))
unfolding join
join-NoTilde [] h = tt
join-NoTilde (entry ∷ []) (p, h) = p
join-NoTilde (entry ∷ next ∷ entries) (p, h) =
    append-NoTilde (entry.1 ++ codes "/")
      (join (codes "/") (map (λ (entry : ℕ × Text). entry.1) (next ∷ entries)))
      (append-NoTilde entry.1 (codes "/") p (omega arith)) (join-NoTilde (next ∷ entries) h)

pub if-IsSound :
    (b : Bool) (s t : MarkdownParseState) → IsSound s → IsSound t → IsSound (if b then s else t)
if-IsSound true s t h k = h
if-IsSound false s t h k = k

pub counted_anchor-NoTilde :
    (prefix : Text) (n : ℕ) → NoTilde prefix → NoTilde (counted_anchor prefix n)
unfolding counted_anchor
counted_anchor-NoTilde prefix n h = append-NoTilde prefix (decimal n) h (decimal-NoTilde n)

pub append_text-IsSound :
    (value : Text) (s : MarkdownParseState) → IsSound s → IsSound (append_text value s)
unfolding append_text
append_text-IsSound value s h =
    if-IsSound (s.in_heading || s.in_paragraph) (record s { text_buf = s.text_buf ++ value })
      (if s.in_blockquote
        then record s { blockquote_buf = s.blockquote_buf ++ value }
        else if s.in_item
        then record s { list_buf = s.list_buf ++ value }
        else if s.in_table
        then record s { table_buf = s.table_buf ++ value }
        else s)
      h
      (if-IsSound s.in_blockquote (record s { blockquote_buf = s.blockquote_buf ++ value })
        (if s.in_item
          then record s { list_buf = s.list_buf ++ value }
          else if s.in_table
          then record s { table_buf = s.table_buf ++ value }
          else s)
        h
        (if-IsSound s.in_item (record s { list_buf = s.list_buf ++ value })
          (if s.in_table then record s { table_buf = s.table_buf ++ value } else s) h
          (if-IsSound s.in_table (record s { table_buf = s.table_buf ++ value }) s h h)))

pub text_or_code-IsSound :
    (value : Text) (s : MarkdownParseState) → IsSound s → IsSound (text_or_code value s)
unfolding text_or_code
text_or_code-IsSound value s h =
    if-IsSound s.in_code (record s { code_buf = s.code_buf ++ value })
      (elim s.link_texts [
        | [] ↦ append_text value s
        | (label, url) ∷ outer ↦ record s { link_texts = (label ++ value, url) ∷ outer }
      ])
      h
      (elim s.link_texts
        as (λ l. IsSound (elim l [
          | [] ↦ append_text value s
          | (label, url) ∷ outer ↦ record s { link_texts = (label ++ value, url) ∷ outer }
        ])) [ [] ↦ append_text-IsSound value s h | (label, url) ∷ outer ↦ h ])

pub end_link-IsSound : (s : MarkdownParseState) → IsSound s → IsSound (end_link s)
unfolding end_link
end_link-IsSound s h =
    elim s.link_texts
      as (λ l. IsSound (elim l [
        | [] ↦ s
        | (label, url) ∷ outer ↦
            append_text
              (if is_empty label then url else label ++ (codes " (" ++ (url ++ codes ")")))
              (record s { link_texts = outer })
      ])) [
        | [] ↦ h
        | (label, url) ∷ outer ↦
            append_text-IsSound
              (if is_empty label then url else label ++ (codes " (" ++ (url ++ codes ")")))
              (record s { link_texts = outer }) h
      ]

pub start_tag-IsSound : (tag : Tag) (s : MarkdownParseState) → IsSound s → IsSound (start_tag tag s)
unfolding start_tag
start_tag-IsSound (Tag.heading level) s h = h
start_tag-IsSound Tag.paragraph s h =
    if-IsSound (not s.in_list && not s.in_blockquote && not s.in_table)
      (record s { in_paragraph = true; text_buf = [] }) s h h
start_tag-IsSound Tag.block_quote s h = h
start_tag-IsSound Tag.list s h = h
start_tag-IsSound Tag.item s h = h
start_tag-IsSound (Tag.code_block (fenced lang)) s h = h
start_tag-IsSound (Tag.code_block indented) s h = h
start_tag-IsSound Tag.table s h = h
start_tag-IsSound Tag.table_cell s h =
    if-IsSound (s.in_table && not (is_empty s.table_buf) && not (ends_with_char 10 s.table_buf))
      (record s { table_buf = s.table_buf ++ codes "|" }) s h h
start_tag-IsSound (Tag.link dest_url) s h = h
start_tag-IsSound Tag.other s h = h

code_lang-NoTilde : (lang : Text) → NoTilde (if is_empty lang then codes "text" else slugify lang)
code_lang-NoTilde [] = omega arith
code_lang-NoTilde (c ∷ lang) = slugify-NoTilde (c ∷ lang)

pub finish_code-IsSound : (s : MarkdownParseState) → IsSound s → IsSound (finish_code s)
unfolding finish_code code_anchor
finish_code-IsSound s h =
    let lang = if is_empty s.code_lang then codes "text" else slugify s.code_lang in
    let count = s.code_count + 1 in
    push_pieces-IsSound SegmentType.code_fence (code_anchor lang count)
      (split_oversized (trim_end (λ c. c == 10) s.code_buf) max_segment_chars)
      (record s { in_code = false; code_count = count; code_buf = []; code_lang = [] })
      (append-NoTilde (codes "code-fence:") (lang ++ (codes ":" ++ decimal count)) (omega arith) (
        append-NoTilde lang (codes ":" ++ decimal count) (code_lang-NoTilde s.code_lang)
          (append-NoTilde (codes ":") (decimal count) (omega arith) (decimal-NoTilde count))))
      h

pub push_heading-IsSound :
    (text : Text) (s : MarkdownParseState) → IsSound s → IsSound (push_heading text s)
unfolding push_heading stack_heading heading_anchor
push_heading-IsSound text s h =
    let slug = slugify text in
    let stacked = stack_heading slug s in
    let plain' : All (λ (entry : ℕ × Text). NoTilde entry.1) stacked.heading_stack =
      All-append (λ (entry : ℕ × Text). NoTilde entry.1)
        (filter (λ (entry : ℕ × Text). ltb entry.0 s.heading_level) s.heading_stack)
        ((s.heading_level, slug) ∷ [])
        (All-filter (λ (entry : ℕ × Text). NoTilde entry.1)
          (λ (entry : ℕ × Text). ltb entry.0 s.heading_level) s.heading_stack h.plain)
        (slugify-NoTilde text, tt) in
    let h' : IsSound stacked = record {
      numbered = h.numbered;
      next = h.next;
      named = h.named;
      distinct = h.distinct;
      plain = plain';
    } in
    let titled = record stacked { title = some text } in
    push-IsSound SegmentType.heading (heading_anchor stacked) text
      (if not (is_some s.title) && (s.heading_level == 1)
        then push SegmentType.document_title (codes "title:" ++ slug) text titled
        else stacked)
      (append-NoTilde (codes "heading:")
        (join (codes "/") (map (λ (entry : ℕ × Text). entry.1) stacked.heading_stack)) (omega arith)
        (join-NoTilde stacked.heading_stack plain'))
      (if-IsSound (not (is_some s.title) && (s.heading_level == 1))
        (push SegmentType.document_title (codes "title:" ++ slug) text titled) stacked
        (push-IsSound SegmentType.document_title (codes "title:" ++ slug) text titled
          (append-NoTilde (codes "title:") slug (omega arith) (slugify-NoTilde text)) h')
        h')
