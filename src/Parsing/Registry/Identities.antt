-- ===== src/Parsing/Registry/Identities.antt =====
-- Registration keeps the identities apart and never changes a selection that was made.
use omni_sem.Base.{
  ◌≡◌, ◌≢◌, refl, sym, ◌⊎◌, inl, inr, true, false, none, some, [], ◌∷◌, ◌++◌, text_eq, text_eq_iff,
  if◌then◌else◌, any, arith, Bool-cases, All, Distinct, Distinct-snoc,
}
use omni_sem.Domain.{ok, err}
use omni_sem.Domain.Records.{DiscoveredDocument}
use omni_sem.Parsing.Registry.{DocumentParser, ParserRegistry, duplicate_parser, register, select}

any-All :
    (parser : DocumentParser) (parsers : ParserRegistry)
    → any (λ item. text_eq item.parser_id parser.parser_id) parsers ≡ false
    → All (λ (p : DocumentParser). parser.parser_id ≢ p.parser_id) parsers
any-All parser [] h = tt
any-All parser (p ∷ parsers) h = elim (Bool-cases (text_eq p.parser_id parser.parser_id)) [
  | inl same ↦ absurd (ground arith)
  | inr other ↦ (
    λ e. absurd (ground (arith, (text_eq_iff p.parser_id parser.parser_id).1 (sym e))),
    any-All parser parsers (rw other at h),
  )
]

select-snoc :
    (document : DiscoveredDocument) (parser : DocumentParser) (parsers : ParserRegistry)
    → select document (parsers ++ parser ∷ []) ≡ (elim (select document parsers) [
      | some chosen ↦ some chosen
      | none ↦ if parser.supports document then some parser else none
    ])
unfolding select
select-snoc document parser [] = refl
select-snoc document parser (p ∷ parsers) = elim (Bool-cases (p.supports document)) [
  | inl supported ↦ rw supported refl
  | inr other ↦ rw other (select-snoc document parser parsers)
]

-- Registering in a registry of distinct identities either is refused as a duplicate, and some parser
-- has the identity, or gives a registry of distinct identities that selects for every document what
-- it selected before, and the new parser only where nothing was selected and it supports the
-- document.
pub register_lem :
    (parser : DocumentParser) (parsers : ParserRegistry)
    → Distinct (λ (p : DocumentParser). p.parser_id) parsers
    → ((register parser parsers ≡ err (duplicate_parser parser.parser_id))
        × (any (λ item. text_eq item.parser_id parser.parser_id) parsers ≡ true))
      ⊎ ((after : ParserRegistry) × (register parser parsers ≡ ok after)
          × Distinct (λ (p : DocumentParser). p.parser_id) after
          × ((document : DiscoveredDocument)
              → select document after ≡ (elim (select document parsers) [
                | some chosen ↦ some chosen
                | none ↦ if parser.supports document then some parser else none
              ])))
unfolding register
register_lem parser parsers d =
    elim (Bool-cases (any (λ item. text_eq item.parser_id parser.parser_id) parsers)) [
      | inl known ↦ inl (rw known refl, known)
      | inr fresh ↦ inr (
        parsers ++ parser ∷ [],
        rw fresh refl,
        Distinct-snoc (λ (p : DocumentParser). p.parser_id) parsers parser
            (any-All parser parsers fresh) d,
        λ document. select-snoc document parser parsers,
      )
    ]
