-- ===== src/Parsing/Examples.antt =====
-- Concrete runs of the splitters.
use omni_sem.Base.{
  ℕ, Option, List, Text, any, true, none, some, Distinct, if◌then◌else◌, ◌≤◌, ◌<◌, ◌≡◌, ◌⊎◌, max,
  [], ◌∷◌, codes, length, text_eq,
}
use omni_sem.Domain.{ok, err}
use omni_sem.Domain.Records.{DiscoveredDocument}
use omni_sem.Parsing.Registry.{
  DocumentParser, ParserRegistry, invalid_utf8, duplicate_parser, register, select,
}
use omni_sem.Parsing.Registry.Defaults.{with_defaults, parser_for, with_defaults_lem}
use omni_sem.Parsing.Registry.Identities.{register_lem}
use omni_sem.Parsing.Chunks.{split_oversized, is_blank}
use omni_sem.Parsing.Chunks.Lengths.{concat, Pieces, split_oversized_lem}
use omni_sem.Parsing.Markdown.Tags.{Event}
use omni_sem.Parsing.PlainText.{is_newline, split_plain_text}
use omni_sem.Parsing.PlainText.Segments.{texts, NumberedFrom, split_plain_text_lem}

split_oversized_lem_example :
    (concat (split_oversized (codes "ab cdefgh") 4) ≡ codes "ab cdefgh")
    × (((length (codes "ab cdefgh") ≤ max 4 1)
          × (split_oversized (codes "ab cdefgh") 4 ≡ codes "ab cdefgh" ∷ []))
        ⊎ ((max 4 1 < length (codes "ab cdefgh"))
            × Pieces is_blank (max 4 1) (split_oversized (codes "ab cdefgh") 4)))
split_oversized_lem_example = split_oversized_lem (codes "ab cdefgh") 4

split_plain_text_lem_example :
    (concat (texts (split_plain_text (codes "ab cdefgh") 4)) ≡ codes "ab cdefgh")
    × NumberedFrom 0 (split_plain_text (codes "ab cdefgh") 4)
    × (((length (codes "ab cdefgh") ≤ max 4 1)
          × (texts (split_plain_text (codes "ab cdefgh") 4) ≡ codes "ab cdefgh" ∷ []))
        ⊎ ((max 4 1 < length (codes "ab cdefgh"))
            × Pieces is_newline (max 4 1) (texts (split_plain_text (codes "ab cdefgh") 4))))
split_plain_text_lem_example = split_plain_text_lem (codes "ab cdefgh") 4

abbrev first_parser : DocumentParser
first_parser = record {
  parser_id = codes "first";
  parser_version = codes "1";
  supports = λ d. true;
  parse = λ d bytes. err invalid_utf8;
}

abbrev second_parser : DocumentParser
second_parser = record first_parser { parser_id = codes "second" }

register_lem_example :
    ((register second_parser (first_parser ∷ []) ≡ err (duplicate_parser (codes "second")))
      × (any
            (λ (item : DocumentParser). text_eq item.parser_id (codes "second"))
            (first_parser ∷ [])
          ≡ true))
    ⊎ ((after : ParserRegistry) × (register second_parser (first_parser ∷ []) ≡ ok after)
        × Distinct (λ (p : DocumentParser). p.parser_id) after
        × ((document : DiscoveredDocument)
            → select document after ≡ (elim (select document (first_parser ∷ [])) [
              | some chosen ↦ some chosen
              | none ↦ if second_parser.supports document then some second_parser else none
            ])))
register_lem_example = register_lem second_parser (first_parser ∷ []) (tt, tt)

abbrev ascii_utf8 : List ℕ → Option Text
ascii_utf8 bytes = some bytes

abbrev one_event : Text → List Event
one_event text = Event.text text ∷ []

with_defaults_lem_example :
    (registry : ParserRegistry) × (with_defaults ascii_utf8 is_newline one_event ≡ ok registry)
    × ((document : DiscoveredDocument)
        → select document registry
          ≡ some (parser_for ascii_utf8 is_newline one_event document.file_type))
with_defaults_lem_example = with_defaults_lem ascii_utf8 is_newline one_event
