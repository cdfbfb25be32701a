-- ===== src/Parsing/Markdown/Tags.antt =====
-- parsing/markdown.rs: the events of `pulldown-cmark` and what the parser does where an element starts,
-- on text and at the end of a link. The events are the variants that the code tells apart: `other`
-- stands for those that a catch-all arm ignores.
use omni_sem.Base.{
  ℕ, true, not, ◌&&◌, [], ◌∷◌, ◌++◌, Text, codes, if◌then◌else◌, is_empty, ends_with_char,
}
use omni_sem.Parsing.Markdown.{MarkdownParseState, append_text}

pub data CodeBlockKind : Type 0 where
  fenced : Text → CodeBlockKind
  indented : CodeBlockKind

pub data Tag : Type 0 where
  heading : ℕ → Tag
  paragraph : Tag
  block_quote : Tag
  list : Tag
  item : Tag
  code_block : CodeBlockKind → Tag
  table : Tag
  table_cell : Tag
  link : Text → Tag
  other : Tag

pub data TagEnd : Type 0 where
  heading : TagEnd
  paragraph : TagEnd
  block_quote : TagEnd
  list : TagEnd
  item : TagEnd
  code_block : TagEnd
  table : TagEnd
  table_head : TagEnd
  table_row : TagEnd
  link : TagEnd
  other : TagEnd

pub data Event : Type 0 where
  start : Tag → Event
  ended : TagEnd → Event
  text : Text → Event
  code : Text → Event
  soft_break : Event
  hard_break : Event
  rule : Event
  other : Event

unfoldable pub start_tag : Tag → MarkdownParseState → MarkdownParseState
start_tag (Tag.heading level) state = record state {
  in_heading = true;
  heading_level = level;
  text_buf = [];
}
start_tag Tag.paragraph state =
    if not state.in_list && not state.in_blockquote && not state.in_table
    then record state { in_paragraph = true; text_buf = [] }
    else state
start_tag Tag.block_quote state = record state { in_blockquote = true; blockquote_buf = [] }
start_tag Tag.list state = record state { in_list = true }
start_tag Tag.item state =
    let newline = if is_empty state.list_buf then [] else codes "\n" in
    record state { in_item = true; list_buf = state.list_buf ++ (newline ++ codes "- ") }
start_tag (Tag.code_block (fenced lang)) state = record state {
  in_code = true;
  code_buf = [];
  code_lang = lang;
}
start_tag (Tag.code_block indented) state = record state {
  in_code = true;
  code_buf = [];
  code_lang = [];
}
start_tag Tag.table state = record state { in_table = true; table_buf = [] }
start_tag Tag.table_cell state =
    if state.in_table && not (is_empty state.table_buf) && not (ends_with_char 10 state.table_buf)
    then record state { table_buf = state.table_buf ++ codes "|" }
    else state
start_tag (Tag.link dest_url) state = record state {
  link_texts = ([], dest_url) ∷ state.link_texts;
}
start_tag Tag.other state = state

unfoldable pub text_or_code : Text → MarkdownParseState → MarkdownParseState
unfolding append_text
text_or_code value state =
    if state.in_code
    then record state { code_buf = state.code_buf ++ value }
    else elim state.link_texts [
      | [] ↦ append_text value state
      | (label, url) ∷ outer ↦ record state { link_texts = (label ++ value, url) ∷ outer }
    ]

unfoldable pub end_link : MarkdownParseState → MarkdownParseState
unfolding append_text
end_link state = elim state.link_texts [
  | [] ↦ state
  | (label, url) ∷ outer ↦
      append_text (if is_empty label then url else label ++ (codes " (" ++ (url ++ codes ")")))
        (record state { link_texts = outer })
]
