-- ===== src/QueryParse.antt =====
-- crates/omnisem-core/src/query_parse.rs: user text becomes an FTS5 MATCH expression of quoted
-- literals. The two loops over the characters are one scan with a mode: the inner one reads a
-- phrase, the outer one a term.
pub mod Scan
pub mod Terms
pub mod Safe
mod Examples
use omni_sem.Base.{
  trim_matches, join, ℕ, ◌+◌, Bool, true, false, ◌&&◌, ◌||◌, Option, List, [], ◌∷◌, ◌++◌, map, Text,
  codes, string_eq, nat_eq, contains, ltb, ◌==◌, if◌then◌else◌, length, is_empty,
}
use omni_sem.Domain.{DomainError, query_empty, query_invalid, Result, ok, err}
use omni_sem.Retrieval.Env.{Env}

abbrev pub max_query_chars : ℕ
max_query_chars = 512

abbrev pub quote : ℕ
quote = 34

pub record ParsedQuery : Type 0 where
  pub original : Text
  pub terms : List Text
  pub fts_match : Text

-- A word that is read so far, if it is not empty, then the words that follow.
pub flush_word : Text → List Text → List Text
flush_word current words = if is_empty current then words else current ∷ words

-- `str::split_whitespace`.
pub words_from : (ℕ → Bool) → Text → Text → List Text
words_from blank current [] = flush_word current []
words_from blank current (c ∷ t) =
    let next = words_from blank [] t in
    let onward = words_from blank (current ++ c ∷ []) t in
    if blank c then flush_word current next else onward

pub is_separator : ℕ → Bool
is_separator ch = contains (codes "(){}[]:;,!?*^~|&+=<>/" ++ 92 ∷ codes "@#$%`") ch

-- `term.replace('"', "\"\"")`.
pub double_quotes : Text → Text
double_quotes [] = []
double_quotes (c ∷ t) =
    let rest = double_quotes t in if c == quote then quote ∷ quote ∷ rest else c ∷ rest

pub quote_fts_literal : Text → Text
quote_fts_literal term = quote ∷ double_quotes term ++ quote ∷ []

-- The outer loop with the term so far, or the inner one with the phrase so far.
pub data Mode : Type 0 where
  outside : Text → Mode
  inside : Text → Mode

module _ (env : Env) where
  pub normalize_spaces : Text → Text
  normalize_spaces input = join (codes " ") (words_from env.is_whitespace [] input)

  pub push_term : List Text → Text → List Text
  push_term terms raw =
      let cleaned = trim_matches (λ ch. is_separator ch || env.is_whitespace ch) raw in
      if is_empty cleaned then terms else terms ++ cleaned ∷ []

  -- `if !current.is_empty() { push_term(..); current.clear(); }`
  pub flush_term : List Text → Text → List Text
  flush_term terms current = if is_empty current then terms else push_term terms current

  pub push_phrase : List Text → Text → List Text
  push_phrase terms phrase =
      let trimmed = trim_matches env.is_whitespace phrase in
      if is_empty trimmed then terms else terms ++ normalize_spaces trimmed ∷ []

  -- One character.
  pub scan_char : List Text → Mode → ℕ → List Text × Mode
  scan_char terms (outside current) ch =
      if ch == quote
      then (flush_term terms current, inside [])
      else if env.is_whitespace ch || is_separator ch
      then (flush_term terms current, outside [])
      else (terms, outside (current ++ ch ∷ []))
  scan_char terms (inside phrase) ch =
      if ch == quote
      then (push_phrase terms phrase, outside [])
      else (terms, inside (phrase ++ ch ∷ []))

  pub scan_end : List Text → Mode → Result DomainError (List Text)
  scan_end terms (outside current) = ok (flush_term terms current)
  scan_end terms (inside phrase) = err (query_invalid (codes "unclosed quoted phrase"))

  pub scan : List Text → Mode → Text → Result DomainError (List Text)
  scan terms mode [] = scan_end terms mode
  scan terms mode (ch ∷ chars) =
      let (terms', mode') = scan_char terms mode ch in scan terms' mode' chars

  pub build_query : Text → List Text → Result DomainError ParsedQuery
  build_query original terms =
      if is_empty terms
      then err query_empty
      else ok (record {
        original = original;
        terms = terms;
        fts_match = join (codes " OR ") (map quote_fts_literal terms);
      })

  pub parse_lexical_query : Text → Result DomainError ParsedQuery
  parse_lexical_query input =
      let original = trim_matches env.is_whitespace input in
      if is_empty original
      then err query_empty
      else if ltb max_query_chars (length original)
      then err (query_invalid (codes "query exceeds 512 characters"))
      else elim (scan [] (outside []) original) [
        | err e ↦ err e
        | ok terms ↦ build_query original terms
      ]
