-- ===== src/Parsing/Markdown/Frontmatter.antt =====
-- parsing/markdown.rs: `split_frontmatter` and `frontmatter_title`. The source cuts at byte positions
-- of ASCII delimiters, which are the positions of the same code points. `is_whitespace` is
-- `char::is_whitespace`.
use omni_sem.Base.{
  ℕ, Bool, true, false, ◌||◌, ◌&&◌, Option, none, some, List, [], ◌∷◌, ◌++◌, Text, codes, text_eq,
  if◌then◌else◌, is_empty, ◌==◌, trim_matches, strip_prefix, str_starts_with,
}

-- `str::lines`: a line ends at a newline, a carriage return before it does not count.
abbrev pub drop_return : Text → Text
drop_return [] = []
drop_return (c ∷ t) = if (c == 13) && is_empty t then [] else c ∷ drop_return t

lines_from : Text → Text → List Text
lines_from line [] = if is_empty line then [] else line ∷ []
lines_from line (c ∷ t) = elim (c == 10) [
  | true ↦ drop_return line ∷ lines_from [] t
  | false ↦ lines_from (line ++ c ∷ []) t
]

unfoldable pub lines : Text → List Text
unfolding lines_from
lines t = lines_from [] t

-- What stands behind the fence may be the end of a line or of the text.
unfoldable pub closes : Text → Bool
unfolding str_starts_with text_eq
closes closing =
    str_starts_with (codes "\n") closing
    || str_starts_with (codes "\r\n") closing
    || is_empty closing
    || text_eq closing (codes "\r")

-- `closing.strip_prefix("\r\n").or_else(|| closing.strip_prefix('\n')).unwrap_or(closing)`
unfoldable pub after_newline : Text → Text
unfolding strip_prefix
after_newline closing = elim (strip_prefix (codes "\r\n") closing) [
  | some body ↦ body
  | none ↦ elim (strip_prefix (codes "\n") closing) [ some body ↦ body | none ↦ closing ]
]

-- `strip_prefix("\n---")`, if the fence closes.
unfoldable pub closing_here : Text → Option Text
unfolding closes strip_prefix
closing_here rest = elim (strip_prefix (codes "\n---") rest) [
  | none ↦ none
  | some closing ↦ if closes closing then some closing else none
]

-- The loop over `rest.match_indices("\n---")`: the text before the first fence that closes, and the body.
unfoldable pub find_closing : Text → Option (Text × Text)
unfolding closing_here after_newline
find_closing [] = none
find_closing (c ∷ rest) = elim (closing_here (c ∷ rest)) [
  | some closing ↦ some ([], after_newline closing)
  | none ↦ elim (find_closing rest) [ none ↦ none | some (front, body) ↦ some (c ∷ front, body) ]
]

-- The text behind the opening fence.
unfoldable pub after_opening : Text → Option Text
unfolding strip_prefix
after_opening input = elim (strip_prefix (codes "---") input) [
  | none ↦ none
  | some tail ↦ elim (strip_prefix (codes "\n") tail) [
    | some rest ↦ some rest
    | none ↦ strip_prefix (codes "\r\n") tail
  ]
]

unfoldable pub split_frontmatter : Text → Option Text × Text
unfolding after_opening find_closing strip_prefix
split_frontmatter input = elim (after_opening input) [
  | none ↦ (none, input)
  | some rest ↦ elim (find_closing rest) [
    | none ↦ (none, input)
    | some (front, body) ↦ (some front, body)
  ]
]

module _ (is_whitespace : ℕ → Bool) where
  -- `value.trim().trim_matches('"').trim_matches('\'')` of a line `title:` value.
  pub line_title : Text → Option Text
  unfolding strip_prefix trim_matches
  line_title line = elim (strip_prefix (codes "title:") (trim_matches is_whitespace line)) [
    | none ↦ none
    | some rest ↦
        let value =
          trim_matches (λ c. c == 39)
            (trim_matches (λ c. c == 34) (trim_matches is_whitespace rest)) in
        if is_empty value then none else some value
  ]

  pub first_title : List Text → Option Text
  unfolding line_title
  first_title [] = none
  first_title (line ∷ rest) = elim (line_title line) [
    | some value ↦ some value
    | none ↦ first_title rest
  ]

  unfoldable pub frontmatter_title : Text → Option Text
  unfolding first_title lines
  frontmatter_title frontmatter = first_title (lines frontmatter)
