-- ===== src/Parsing/Markdown/Examples.antt =====
-- Concrete runs of the Markdown parser.
use omni_sem.Base.{
  ℕ, ◌≡◌, refl, inl, Bool, none, some, ◌⊎◌, List, [], ◌∷◌, ◌++◌, Text, codes, ◌==◌, ◌||◌, Distinct,
  decimal, map, text_eq, strip_prefix, str_starts_with, trim_matches, trim_start, trim_end, join,
}
use omni_sem.Parsing.{ParsedSegment}
use omni_sem.Parsing.Chunks.{split_oversized}
use omni_sem.Parsing.Registry.{ParsedDocument}
use omni_sem.Parsing.Markdown.{push, push_pieces, append_text, numbered_anchor, count_of, count_up}
use omni_sem.Parsing.Markdown.Slug.{slug_chars, slugify, IsSlug, slugify_lem}
use omni_sem.Parsing.Markdown.Frontmatter.{
  split_frontmatter, frontmatter_title, after_newline, closes, closing_here, find_closing,
  after_opening, lines,
}
use omni_sem.Parsing.Markdown.Partition.{
  NoFence, fence, Opened, Closed, split_frontmatter_lem, split_frontmatter-append,
}
use omni_sem.Parsing.Markdown.Tags.{Tag, TagEnd, Event, start_tag, text_or_code}
use omni_sem.Parsing.Markdown.Finish.{
  counted_anchor, stack_heading, heading_anchor, push_heading, finish_heading, finish_paragraph,
}
use omni_sem.Parsing.Markdown.Events.{
  end_tag, handle_event, handle_events, push_frontmatter, push_whole, parse_state, parse_markdown,
}
use omni_sem.Parsing.Markdown.Sound.{Ordinals}
use omni_sem.Parsing.Markdown.Unique.{parse_markdown_lem}

abbrev is_space : ℕ → Bool
is_space c = (c == 32) || (c == 10)

-- Two headings of the same text with a paragraph between them.
abbrev sample_events : Text → List Event
sample_events body =
    Event.start (Tag.heading 2)
    ∷ Event.text (codes "To do")
    ∷ Event.ended TagEnd.heading
    ∷ Event.start Tag.paragraph
    ∷ Event.text (codes "One")
    ∷ Event.soft_break
    ∷ Event.text (codes "two")
    ∷ Event.ended TagEnd.paragraph
    ∷ Event.start (Tag.heading 2)
    ∷ Event.text (codes "To do")
    ∷ Event.ended TagEnd.heading
    ∷ []

abbrev sample_input : Text
sample_input = codes "---\na: b\n---\nbody"

abbrev sample_document : ParsedDocument
unfolding parse_markdown
sample_document = parse_markdown is_space sample_events sample_input

anchors_run :
    map (λ (s : ParsedSegment). s.anchor) sample_document.segments
    ≡ codes "frontmatter"
      ∷ codes "heading:to-do"
      ∷ codes "paragraph:1"
      ∷ codes "heading:to-do~2"
      ∷ []
unfolding sample_document parse_markdown parse_state split_frontmatter after_opening find_closing
    closing_here after_newline closes strip_prefix str_starts_with text_eq push_frontmatter
    frontmatter_title lines push numbered_anchor count_of count_up handle_events handle_event
    start_tag end_tag text_or_code append_text finish_heading push_heading stack_heading
    heading_anchor slugify slug_chars trim_end trim_matches trim_start join finish_paragraph
    counted_anchor decimal push_pieces split_oversized push_whole
anchors_run = refl

parse_markdown_lem_example :
    Distinct
      (λ (s : ParsedSegment). s.anchor)
      (parse_markdown is_space sample_events sample_input).segments
    × Ordinals 0 (parse_markdown is_space sample_events sample_input).segments
parse_markdown_lem_example = parse_markdown_lem is_space sample_events sample_input

slugify_lem_example :
    IsSlug (slugify (codes " To  do!"))
    × (slugify (slugify (codes " To  do!")) ≡ slugify (codes " To  do!"))
slugify_lem_example = slugify_lem (codes " To  do!")

front-NoFence : NoFence (codes "a: b")
unfolding strip_prefix
front-NoFence = (refl, (refl, (refl, (refl, tt))))

split_frontmatter-append_example :
    split_frontmatter
      (codes "---" ++ (codes "\n" ++ (codes "a: b" ++ (fence ++ (codes "\n" ++ codes "body")))))
    ≡ (some (codes "a: b"), codes "body")
split_frontmatter-append_example =
    split_frontmatter-append (codes "\n") (codes "a: b") (codes "\n") (codes "body") (inl refl)
      front-NoFence (inl refl)

split_frontmatter_lem_example :
    (split_frontmatter sample_input ≡ (none, sample_input))
    ⊎ ((opening : Text) × (rest : Text) × (front : Text) × (body : Text) × (split_frontmatter
            sample_input
          ≡ (some front, body))
        × Opened sample_input opening rest
        × Closed rest front body)
split_frontmatter_lem_example = split_frontmatter_lem sample_input
