-- ===== src/Parsing/Registry/Defaults.antt =====
-- parsing/markdown.rs, parsing/plain_text.rs and `ParserRegistry::with_defaults`. The UTF-8 decoder,
-- `char::is_whitespace` and the events of the Markdown library are parameters.
use omni_sem.Base.{
  ℕ, ◌≡◌, refl, Bool, true, false, Option, none, some, List, [], ◌∷◌, Text, codes, text_eq,
}
use omni_sem.Domain.{SupportedFileType, markdown, plain_text, Result, ok, err, ◌>>=◌}
use omni_sem.Domain.Records.{DiscoveredDocument}
use omni_sem.Parsing.Registry.{
  DocumentParser, ParserRegistry, ParseError, invalid_utf8, register, select,
}
use omni_sem.Parsing.Markdown.Tags.{Event}
use omni_sem.Parsing.Markdown.Events.{parse_markdown}
use omni_sem.Parsing.PlainText.{split_plain_text, default_max_segment_chars}

is_markdown : SupportedFileType → Bool
is_markdown markdown = true
is_markdown plain_text = false

is_plain_text : SupportedFileType → Bool
is_plain_text markdown = false
is_plain_text plain_text = true

module _ (from_utf8 : List ℕ → Option Text) (is_whitespace : ℕ → Bool)
    (parse_events : Text → List Event) where
  pub markdown_parser : DocumentParser
  markdown_parser = record {
    parser_id = codes "markdown-v1";
    parser_version = codes "1";
    supports = λ document. is_markdown document.file_type;
    parse = λ document bytes. elim (from_utf8 bytes) [
      | none ↦ err invalid_utf8
      | some text ↦ ok (parse_markdown is_whitespace parse_events text)
    ];
  }

  pub plain_text_parser : DocumentParser
  plain_text_parser = record {
    parser_id = codes "plain-text-v1";
    parser_version = codes "1";
    supports = λ document. is_plain_text document.file_type;
    parse = λ document bytes. elim (from_utf8 bytes) [
      | none ↦ err invalid_utf8
      | some text ↦ ok (record {
        title = none;
        segments = split_plain_text text default_max_segment_chars;
        warnings = [];
      })
    ];
  }

  pub with_defaults : Result ParseError ParserRegistry
  with_defaults = register markdown_parser [] >>= register plain_text_parser

  -- The parser that a file type is meant for.
  abbrev pub parser_for : SupportedFileType → DocumentParser
  parser_for markdown = markdown_parser
  parser_for plain_text = plain_text_parser

  -- The default registry is built without an error, and it selects for every document the parser that
  -- its file type is meant for.
  pub with_defaults_lem :
      (registry : ParserRegistry) × (with_defaults ≡ ok registry)
      × ((document : DiscoveredDocument)
          → select document registry ≡ some (parser_for document.file_type))
  unfolding with_defaults register markdown_parser plain_text_parser is_markdown is_plain_text
      select text_eq
  with_defaults_lem = (
    markdown_parser ∷ plain_text_parser ∷ [],
    refl,
    λ document. chosen document document.file_type refl,
  )
    where
      chosen :
          (document : DiscoveredDocument) (t : SupportedFileType)
          → document.file_type ≡ t
          → select document (markdown_parser ∷ plain_text_parser ∷ []) ≡ some (parser_for t)
      chosen document markdown e = rw e refl
      chosen document plain_text e = rw e refl
