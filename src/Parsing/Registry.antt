-- ===== src/Parsing/Registry.antt =====
-- parsing/mod.rs: the parser contract and the registry.
pub mod Identities
pub mod Defaults
use omni_sem.Base.{
  ℕ, ◌≡◌, Bool, Option, none, some, List, [], ◌∷◌, ◌++◌, Text, text_eq, if◌then◌else◌, any,
}
use omni_sem.Domain.{Result, ok, err}
use omni_sem.Domain.Records.{DiscoveredDocument}
use omni_sem.Parsing.{ParsedSegment}

pub record ParserWarning : Type 0 where
  pub code : Text
  pub message : Text

pub record ParsedDocument : Type 0 where
  pub title : Option Text
  pub segments : List ParsedSegment
  pub warnings : List ParserWarning

pub data ParseError : Type 0 where
  invalid_utf8 : ParseError
  duplicate_parser : Text → ParseError
  failed : Text → ParseError

-- `DocumentParser`; the bytes of a source are a list of numbers.
pub record DocumentParser : Type 0 where
  pub parser_id : Text
  pub parser_version : Text
  pub supports : DiscoveredDocument → Bool
  pub parse : DiscoveredDocument → List ℕ → Result ParseError ParsedDocument

abbrev pub ParserRegistry : Type 0
ParserRegistry = List DocumentParser

unfoldable pub register : DocumentParser → ParserRegistry → Result ParseError ParserRegistry
register parser parsers =
    if any (λ item. text_eq item.parser_id parser.parser_id) parsers
    then err (duplicate_parser parser.parser_id)
    else ok (parsers ++ parser ∷ [])

unfoldable pub select : DiscoveredDocument → ParserRegistry → Option DocumentParser
select document [] = none
select document (parser ∷ parsers) =
    let rest = select document parsers in if parser.supports document then some parser else rest
