-- ===== src/QueryParse/Safe.antt =====
-- `parse_lexical_query`, input by input.
use omni_sem.Base.{
  trim_matches, join, ◌≤◌, ◌<◌, ◌≡◌, refl, sym, ap, inl, inr, true, false, not, List, [], ◌∷◌, ◌++◌,
  map, Text, codes, ◌==◌, ==_iff, ltb, if◌then◌else◌, length, is_empty, arith, Bool-cases, All,
}
use omni_sem.Domain.{DomainError, query_empty, query_invalid, Result, ok, err}
use omni_sem.Retrieval.Env.{Env}
use omni_sem.QueryParse.{
  quote, max_query_chars, ParsedQuery, double_quotes, quote_fts_literal, scan, outside, build_query,
  parse_lexical_query,
}
use omni_sem.QueryParse.Terms.{terms_of, scan-terms_of}
use omni_sem.QueryParse.Scan.{
  NoQuote, IsTerm, mode_after, Scanned, unclosed, collected, scan-Scanned,
}

-- The text between two quotes.
abbrev pub quoted : Text → Text
quoted t = quote ∷ t ++ quote ∷ []

-- What a parsed query is: the trimmed input, terms that are not empty and hold no quote, and the
-- expression in which each stands between quotes.
pub record IsSafe (original : Text) (parsed : ParsedQuery) : Type 0 where
  pub kept : parsed.original ≡ original
  pub some_term : 0 < length parsed.terms
  pub terms : All IsTerm parsed.terms
  pub expression : parsed.fts_match ≡ join (codes " OR ") (map quoted parsed.terms)

-- The results of parsing, by the trimmed input and whether a quote is left open in it.
pub data Parses (env : Env) (original : Text) : Result DomainError ParsedQuery → Type 0 where
  nothing : original ≡ [] → Parses env original (err query_empty)
  too_long :
      max_query_chars < length original
      → Parses env original (err (query_invalid (codes "query exceeds 512 characters")))
  left_open :
      0 < length original
      → length original ≤ max_query_chars
      → mode_after false original ≡ true
      → Parses env original (err (query_invalid (codes "unclosed quoted phrase")))
  no_terms :
      0 < length original
      → length original ≤ max_query_chars
      → mode_after false original ≡ false
      → terms_of env original ≡ []
      → Parses env original (err query_empty)
  parsed :
      (query : ParsedQuery)
      → 0 < length original
      → length original ≤ max_query_chars
      → mode_after false original ≡ false
      → query.terms ≡ terms_of env original
      → IsSafe original query
      → Parses env original (ok query)

double_quotes_lem : (t : Text) → NoQuote t → double_quotes t ≡ t
unfolding double_quotes
double_quotes_lem [] h = refl
double_quotes_lem (c ∷ t) (n, h) = elim (Bool-cases (c == quote)) [
  | inl same ↦ absurd (n ((==_iff c quote).0 same))
  | inr other ↦ rw other (ap (◌∷◌ c) (double_quotes_lem t h))
]

map-quote_fts_literal :
    (terms : List Text) → All IsTerm terms → map quote_fts_literal terms ≡ map quoted terms
unfolding quote_fts_literal
map-quote_fts_literal [] h = refl
map-quote_fts_literal (t ∷ terms) ((len, q), h) =
    rw (double_quotes_lem t q) (ap (◌∷◌ (quoted t)) (map-quote_fts_literal terms h))

module _ (env : Env) where
  build_query-Parses :
      (original : Text) (terms : List Text)
      → 0 < length original
      → length original ≤ max_query_chars
      → mode_after false original ≡ false
      → terms ≡ terms_of env original
      → All IsTerm terms
      → Parses env original (build_query env original terms)
  unfolding build_query
  build_query-Parses original [] pos short closed same h = no_terms pos short closed (sym same)
  build_query-Parses original (t ∷ terms) pos short closed same h =
      parsed _ pos short closed same record {
        kept = refl;
        some_term = omega arith;
        terms = h;
        expression = ap (join (codes " OR ")) (map-quote_fts_literal (t ∷ terms) h);
      }

  after_scan :
      (original : Text) (scanned : Result DomainError (List Text))
      → 0 < length original
      → length original ≤ max_query_chars
      → scan env [] (outside []) original ≡ scanned
      → Scanned (not (mode_after false original)) scanned
      → Parses env original
          (elim scanned [ err e ↦ err e | ok terms ↦ build_query env original terms ])
  after_scan original _ pos short same (unclosed h) = left_open pos short (ground arith)
  after_scan original _ pos short same (collected terms h good) =
      build_query-Parses original terms pos short (ground arith)
        (scan-terms_of env original terms same) good

  -- The trimmed input decides the result of `parse_lexical_query`. An empty one and one without terms
  -- are refused as empty, one of more than 512 characters as too long, and one in which a quote is
  -- left open as unclosed. Any other gives its terms: the words between whitespace and separators
  -- outside quotes, and each quoted phrase that is not blank, with single spaces. They are not empty
  -- and hold no quote, so that the expression is the terms, each between quotes, joined by OR.
  pub parse_lexical_query-Parses :
      (input : Text)
      → Parses env (trim_matches env.is_whitespace input) (parse_lexical_query env input)
  unfolding parse_lexical_query
  parse_lexical_query-Parses input = by_case (trim_matches env.is_whitespace input)
    where
      by_case :
          (original : Text)
          → Parses env original (
              if is_empty original
              then err query_empty
              else if ltb max_query_chars (length original)
              then err (query_invalid (codes "query exceeds 512 characters"))
              else elim (scan env [] (outside []) original) [
                | err e ↦ err e
                | ok terms ↦ build_query env original terms
              ])
      by_case [] = nothing refl
      by_case (c ∷ t) = elim (Bool-cases (ltb max_query_chars (length (c ∷ t)))) [
        | inl long ↦ rw long (too_long (ground arith))
        | inr short ↦ rw short (
            after_scan (c ∷ t) (scan env [] (outside []) (c ∷ t)) (omega arith) (ground arith) refl
              (scan-Scanned env [] (outside []) (c ∷ t) tt tt))
      ]
