-- ===== src/QueryParse/Scan.antt =====
-- What the scan collects: terms that are not empty and hold no quote; and when it fails.
use omni_sem.Base.{
  trim_start, trim_end, trim_matches, join, ℕ, ◌<◌, ◌≡◌, ◌≢◌, subst, refl, sym, inl, inr, Bool,
  true, false, not, ◌&&◌, ◌||◌, List, [], ◌∷◌, ◌++◌, Text, codes, ◌==◌, ==_iff, if◌then◌else◌,
  length, is_empty, arith, Bool-cases, All, All-append, length-append,
}
use omni_sem.Domain.{DomainError, query_invalid, Result, ok, err}
use omni_sem.Retrieval.Env.{Env}
use omni_sem.QueryParse.{
  quote, flush_word, words_from, is_separator, Mode, outside, inside, normalize_spaces, push_term,
  flush_term, push_phrase, scan_char, scan_end, scan,
}

abbrev pub NoQuote : Text → Type 0
NoQuote t = All (λ c. c ≢ quote) t

abbrev pub IsTerm : Text → Type 0
IsTerm t = (0 < length t) × NoQuote t

-- The text so far is in a phrase.
abbrev pub is_inside : Mode → Bool
is_inside (outside current) = false
is_inside (inside phrase) = true

-- Each quote of a text changes the mode.
abbrev pub mode_after : Bool → Text → Bool
mode_after mode [] = mode
mode_after mode (c ∷ t) = mode_after (if c == quote then not mode else mode) t

-- A scan that ends in a phrase fails, and any other gives terms.
pub data Scanned (closed : Bool) : Result DomainError (List Text) → Type 0 where
  unclosed : closed ≡ false → Scanned closed (err (query_invalid (codes "unclosed quoted phrase")))
  collected : (terms : List Text) → closed ≡ true → All IsTerm terms → Scanned closed (ok terms)

nonempty {ℓ} : {A : Type ℓ} (xs : List A) → is_empty xs ≡ false → 0 < length xs
nonempty [] h = cc
nonempty (x ∷ xs) h = omega arith

module _ {κ} (P : ℕ → Type κ) (p : ℕ → Bool) where
  All-trim_start : (t : Text) → All P t → All P (trim_start p t)
  unfolding trim_start
  All-trim_start [] h = tt
  All-trim_start (c ∷ t) (q, h) = elim (Bool-cases (p c)) [
    | inl gone ↦ rw gone (All-trim_start t h)
    | inr kept ↦ rw kept (q, h)
  ]

  All-trim_end : (t : Text) → All P t → All P (trim_end p t)
  unfolding trim_end
  All-trim_end [] h = tt
  All-trim_end (c ∷ t) (q, h) = elim (Bool-cases (p c && is_empty (trim_end p t))) [
    | inl gone ↦ rw gone tt
    | inr kept ↦ rw kept (q, All-trim_end t h)
  ]

  All-trim_matches : (t : Text) → All P t → All P (trim_matches p t)
  unfolding trim_matches
  All-trim_matches t h = All-trim_end (trim_start p t) (All-trim_start t h)

-- The first character that is left is none of those that are trimmed.
abbrev StartsOutside : (ℕ → Bool) → Text → Type 0
StartsOutside p [] = Unit
StartsOutside p (c ∷ t) = p c ≡ false

module _ (p : ℕ → Bool) where
  trim_start-StartsOutside : (t : Text) → StartsOutside p (trim_start p t)
  unfolding trim_start
  trim_start-StartsOutside [] = tt
  trim_start-StartsOutside (c ∷ t) = elim (Bool-cases (p c)) [
    | inl gone ↦ rw gone (trim_start-StartsOutside t)
    | inr kept ↦ rw kept kept
  ]

  trim_end-StartsOutside : (t : Text) → StartsOutside p t → StartsOutside p (trim_end p t)
  unfolding trim_end
  trim_end-StartsOutside [] h = tt
  trim_end-StartsOutside (c ∷ t) h = rw h h

  trim_matches-StartsOutside : (t : Text) → StartsOutside p (trim_matches p t)
  unfolding trim_matches
  trim_matches-StartsOutside t =
      trim_end-StartsOutside (trim_start p t) (trim_start-StartsOutside t)

module _ (blank : ℕ → Bool) where
  flush_word-IsTerm :
      (current : Text) (words : List Text)
      → NoQuote current
      → All IsTerm words
      → All IsTerm (flush_word current words)
  unfolding flush_word
  flush_word-IsTerm [] words q h = h
  flush_word-IsTerm (c ∷ current) words q h = ((omega arith, q), h)

  words_from-IsTerm :
      (current t : Text) → NoQuote current → NoQuote t → All IsTerm (words_from blank current t)
  unfolding words_from
  words_from-IsTerm current [] q h = flush_word-IsTerm current [] q tt
  words_from-IsTerm current (c ∷ t) q (n, h) = elim (Bool-cases (blank c)) [
    | inl space ↦
        rw space (flush_word-IsTerm current (words_from blank [] t) q (words_from-IsTerm [] t tt h))
    | inr letter ↦ rw letter (
        words_from-IsTerm (current ++ c ∷ []) t
          (All-append (λ d. d ≢ quote) current (c ∷ []) q (n, tt)) h)
  ]

  words_from-nonempty : (d : ℕ) (current t : Text) → 0 < length (words_from blank (d ∷ current) t)
  unfolding words_from flush_word
  words_from-nonempty d current [] = omega arith
  words_from-nonempty d current (c ∷ t) = elim (Bool-cases (blank c)) [
    | inl space ↦ rw space (omega arith)
    | inr letter ↦ rw letter (words_from-nonempty d (current ++ c ∷ []) t)
  ]

  words_from-some :
      (t : Text) → StartsOutside blank t → 0 < length t → 0 < length (words_from blank [] t)
  unfolding words_from
  words_from-some [] h pos = absurd (omega (arith, pos))
  words_from-some (c ∷ t) h pos = rw h (words_from-nonempty c [] t)

join-IsTerm :
    (words : List Text) → 0 < length words → All IsTerm words → IsTerm (join (codes " ") words)
unfolding join
join-IsTerm [] pos h = absurd (omega (arith, pos))
join-IsTerm (w ∷ []) pos (q, h) = q
join-IsTerm (w ∷ v ∷ ws) pos ((len, q), h) =
    let (len', q') = join-IsTerm (v ∷ ws) (omega arith) h in
    let rest = join (codes " ") (v ∷ ws) in
    let space : NoQuote (codes " ") = ((λ e. omega (arith, e)), tt) in
    (
      subst (λ n. 0 < n) (sym (length-append (w ++ codes " ") rest)) (omega arith),
      All-append (λ d. d ≢ quote) (w ++ codes " ") rest
          (All-append (λ d. d ≢ quote) w (codes " ") q space) q',
    )

module _ (env : Env) where
  abbrev IsMode : Mode → Type 0
  IsMode (outside current) = NoQuote current
  IsMode (inside phrase) = NoQuote phrase

  push_term-IsTerm :
      (terms : List Text) (raw : Text)
      → All IsTerm terms
      → NoQuote raw
      → All IsTerm (push_term env terms raw)
  unfolding push_term
  push_term-IsTerm terms raw h q =
      let p : ℕ → Bool = λ ch. is_separator ch || env.is_whitespace ch in
      let cleaned = trim_matches p raw in
      elim (Bool-cases (is_empty cleaned)) [
        | inl gone ↦ rw gone h
        | inr kept ↦ rw kept (
            All-append IsTerm terms (cleaned ∷ []) h
              ((nonempty cleaned kept, All-trim_matches (λ d. d ≢ quote) p raw q), tt))
      ]

  flush_term-IsTerm :
      (terms : List Text) (current : Text)
      → All IsTerm terms
      → NoQuote current
      → All IsTerm (flush_term env terms current)
  unfolding flush_term
  flush_term-IsTerm terms [] h q = h
  flush_term-IsTerm terms (c ∷ current) h q = push_term-IsTerm terms (c ∷ current) h q

  push_phrase-IsTerm :
      (terms : List Text) (phrase : Text)
      → All IsTerm terms
      → NoQuote phrase
      → All IsTerm (push_phrase env terms phrase)
  unfolding push_phrase normalize_spaces
  push_phrase-IsTerm terms phrase h q =
      let p = env.is_whitespace in
      let trimmed = trim_matches p phrase in
      let words = words_from p [] trimmed in
      elim (Bool-cases (is_empty trimmed)) [
        | inl gone ↦ rw gone h
        | inr kept ↦ rw kept (
            All-append IsTerm terms (join (codes " ") words ∷ []) h (
              join-IsTerm words
                  (words_from-some p trimmed (trim_matches-StartsOutside p phrase)
                    (nonempty trimmed kept))
                  (words_from-IsTerm p [] trimmed tt
                    (All-trim_matches (λ d. d ≢ quote) p phrase q)),
              tt,
            ))
      ]

  scan_char-IsTerm :
      (terms : List Text) (mode : Mode) (ch : ℕ)
      → All IsTerm terms
      → IsMode mode
      → All IsTerm (scan_char env terms mode ch).0 × IsMode (scan_char env terms mode ch).1
  unfolding scan_char
  scan_char-IsTerm terms (outside current) ch h q = elim (Bool-cases (ch == quote)) [
    | inl quoted ↦ rw quoted (flush_term-IsTerm terms current h q, tt)
    | inr other ↦ elim (Bool-cases (env.is_whitespace ch || is_separator ch)) [
      | inl between ↦ rw (other, between) (flush_term-IsTerm terms current h q, tt)
      | inr letter ↦
          rw (other, letter)
            (
              h,
              All-append (λ d. d ≢ quote) current (ch ∷ []) q
                  ((λ e. absurd (ground (arith, (==_iff ch quote).1 e))), tt),
            )
    ]
  ]
  scan_char-IsTerm terms (inside phrase) ch h q = elim (Bool-cases (ch == quote)) [
    | inl quoted ↦ rw quoted (push_phrase-IsTerm terms phrase h q, tt)
    | inr other ↦ rw other (
      h,
      All-append (λ d. d ≢ quote) phrase (ch ∷ []) q
          ((λ e. absurd (ground (arith, (==_iff ch quote).1 e))), tt),
    )
  ]

  scan_char-mode :
      (terms : List Text) (mode : Mode) (ch : ℕ)
      → is_inside (scan_char env terms mode ch).1
        ≡ (if ch == quote then not (is_inside mode) else is_inside mode)
  unfolding scan_char
  scan_char-mode terms (outside current) ch = ground arith
  scan_char-mode terms (inside phrase) ch = ground arith

  scan_end-Scanned :
      (terms : List Text) (mode : Mode)
      → All IsTerm terms
      → IsMode mode
      → Scanned (not (is_inside mode)) (scan_end env terms mode)
  unfolding scan_end
  scan_end-Scanned terms (outside current) h q =
      collected (flush_term env terms current) refl (flush_term-IsTerm terms current h q)
  scan_end-Scanned terms (inside phrase) h q = unclosed refl

  pub scan-Scanned :
      (terms : List Text) (mode : Mode) (t : Text)
      → All IsTerm terms
      → IsMode mode
      → Scanned (not (mode_after (is_inside mode) t)) (scan env terms mode t)
  unfolding scan
  scan-Scanned terms mode [] h q = scan_end-Scanned terms mode h q
  scan-Scanned terms mode (ch ∷ t) h q =
      let (h', q') = scan_char-IsTerm terms mode ch h q in
      let next = scan_char env terms mode ch in
      rw (← scan_char-mode terms mode ch) (scan-Scanned next.0 next.1 t h' q')
