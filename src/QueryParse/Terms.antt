-- ===== src/QueryParse/Terms.antt =====
-- Which terms the scan collects: the words between separators outside quotes, and each quoted phrase.
use omni_sem.Base.{
  trim_start, trim_end, trim_matches, ℕ, ◌≡◌, refl, sym, ap, ◌∙◌, inl, inr, Bool, false, ◌||◌, List,
  [], ◌∷◌, ◌++◌, Text, codes, ◌==◌, if◌then◌else◌, is_empty, arith, Bool-cases, All, All-append,
  append-nil, append_assoc,
}
use omni_sem.Domain.{query_invalid, ok, err}
use omni_sem.Retrieval.Env.{Env}
use omni_sem.QueryParse.{
  quote, flush_word, words_from, is_separator, outside, inside, normalize_spaces, push_term,
  flush_term, push_phrase, scan_char, scan_end, scan,
}

-- What stands before the first quote, and what stands between the quotes that follow.
abbrev pub at_quotes : Text → Text × List Text
at_quotes [] = ([], [])
at_quotes (c ∷ t) =
    if c == quote
    then ([], (at_quotes t).0 ∷ (at_quotes t).1)
    else (c ∷ (at_quotes t).0, (at_quotes t).1)

module _ (env : Env) where
  -- What separates words outside quotes.
  abbrev pub separates : ℕ → Bool
  separates c = env.is_whitespace c || is_separator c

  -- A phrase without the space around it and with single spaces, if there is anything in it.
  abbrev pub phrase_terms : Text → List Text
  phrase_terms phrase =
      if is_empty (trim_matches env.is_whitespace phrase)
      then []
      else normalize_spaces env (trim_matches env.is_whitespace phrase) ∷ []

  -- Pieces by turns in and out of quotes.
  mutual
    pub terms_inside : List Text → List Text
    terms_inside [] = []
    terms_inside (piece ∷ pieces) = phrase_terms piece ++ terms_outside pieces

    pub terms_outside : List Text → List Text
    terms_outside [] = []
    terms_outside (piece ∷ pieces) = words_from separates [] piece ++ terms_inside pieces

  -- The terms of a query in which every quote is closed.
  abbrev pub terms_of : Text → List Text
  terms_of t = terms_outside ((at_quotes t).0 ∷ (at_quotes t).1)

  -- No character separates.
  abbrev Solid : Text → Type 0
  Solid t = All (λ c. separates c ≡ false) t

  trims : ℕ → Bool
  trims ch = is_separator ch || env.is_whitespace ch

  trim_start-Solid : (t : Text) → Solid t → trim_start trims t ≡ t
  unfolding trim_start trims
  trim_start-Solid [] h = refl
  trim_start-Solid (c ∷ t) (solid, h) =
      let stays : (is_separator c || env.is_whitespace c) ≡ false = ground arith in rw stays refl

  trim_end-Solid : (t : Text) → Solid t → trim_end trims t ≡ t
  unfolding trim_end trims
  trim_end-Solid [] h = refl
  trim_end-Solid (c ∷ t) (solid, h) =
      let stays : (is_separator c || env.is_whitespace c) ≡ false = ground arith in
      rw stays (ap (◌∷◌ c) (trim_end-Solid t h))

  flush_term-Solid :
      (terms : List Text) (current : Text)
      → Solid current
      → flush_term env terms current ≡ terms ++ flush_word current []
  unfolding flush_term push_term flush_word trim_matches trims
  flush_term-Solid terms [] h = sym (append-nil terms)
  flush_term-Solid terms (c ∷ current) h =
      let same : trim_end trims (trim_start trims (c ∷ current)) ≡ c ∷ current =
        rw (trim_start-Solid (c ∷ current) h) (trim_end-Solid (c ∷ current) h) in
      rw same refl

  flush_word-append :
      (current : Text) (words : List Text)
      → flush_word current words ≡ flush_word current [] ++ words
  unfolding flush_word
  flush_word-append [] words = refl
  flush_word-append (c ∷ current) words = refl

  push_phrase-append :
      (terms : List Text) (phrase : Text)
      → push_phrase env terms phrase ≡ terms ++ phrase_terms phrase
  unfolding push_phrase
  push_phrase-append terms phrase =
      elim (Bool-cases (is_empty (trim_matches env.is_whitespace phrase))) [
        | inl nothing ↦ rw nothing (sym (append-nil terms))
        | inr something ↦ rw something refl
      ]

  mutual
    unfolding scan scan_char scan_end words_from terms_inside terms_outside

    scan-outside :
        (terms : List Text) (current t : Text) (collected : List Text)
        → Solid current
        → scan env terms (outside current) t ≡ ok collected
        → collected
          ≡ terms ++ (words_from separates current (at_quotes t).0 ++ terms_inside (at_quotes t).1)
    scan-outside terms current [] collected solid h =
        let same : flush_term env terms current ≡ collected = cc in
        sym same
        ∙ flush_term-Solid terms current solid
        ∙ ap (λ l. terms ++ l) (sym (append-nil (flush_word current [])))
    scan-outside terms current (c ∷ t) collected solid h = elim (Bool-cases (c == quote)) [
      | inl quoted ↦ rw quoted (
          scan-inside (flush_term env terms current) [] t collected (rw quoted at h)
          ∙ ap (λ l. l ++ (phrase_terms (at_quotes t).0 ++ terms_outside (at_quotes t).1))
              (flush_term-Solid terms current solid)
          ∙ append_assoc terms (flush_word current []) _)
      | inr plain ↦ elim (Bool-cases (separates c)) [
        | inl apart ↦
            rw (plain, apart)
              (scan-outside (flush_term env terms current) [] t collected tt
                  (rw (plain, apart) at h)
                ∙ ap
                    (λ l.
                      l
                      ++ (words_from separates [] (at_quotes t).0 ++ terms_inside (at_quotes t).1))
                    (flush_term-Solid terms current solid)
                ∙ append_assoc terms (flush_word current []) _
                ∙ ap (λ l. terms ++ l)
                    (sym (
                        append_assoc (flush_word current [])
                          (words_from separates [] (at_quotes t).0) _)
                      ∙ ap (λ l. l ++ terms_inside (at_quotes t).1)
                          (sym (flush_word-append current _))))
        | inr part ↦
            rw (plain, part)
              (scan-outside terms (current ++ c ∷ []) t collected
                (All-append (λ d. separates d ≡ false) current (c ∷ []) solid (part, tt))
                (rw (plain, part) at h))
      ]
    ]

    scan-inside :
        (terms : List Text) (phrase t : Text) (collected : List Text)
        → scan env terms (inside phrase) t ≡ ok collected
        → collected
          ≡ terms ++ (phrase_terms (phrase ++ (at_quotes t).0) ++ terms_outside (at_quotes t).1)
    scan-inside terms phrase [] collected h =
        let clash : err (query_invalid (codes "unclosed quoted phrase")) ≡ ok collected = h in
        absurd cc
    scan-inside terms phrase (c ∷ t) collected h = elim (Bool-cases (c == quote)) [
      | inl quoted ↦
          rw (quoted, append-nil phrase)
            (scan-outside (push_phrase env terms phrase) [] t collected tt (rw quoted at h)
              ∙ ap
                  (λ l.
                    l ++ (words_from separates [] (at_quotes t).0 ++ terms_inside (at_quotes t).1))
                  (push_phrase-append terms phrase)
              ∙ append_assoc terms (phrase_terms phrase) _)
      | inr plain ↦
          rw (plain, sym (append_assoc phrase (c ∷ []) (at_quotes t).0))
            (scan-inside terms (phrase ++ c ∷ []) t collected (rw plain at h))
    ]

  -- A scan that succeeds collects the terms of the text.
  pub scan-terms_of :
      (t : Text) (collected : List Text)
      → scan env [] (outside []) t ≡ ok collected
      → collected ≡ terms_of t
  unfolding terms_outside
  scan-terms_of t collected h = scan-outside [] [] t collected tt h
