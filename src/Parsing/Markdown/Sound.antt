-- ===== src/Parsing/Markdown/Sound.antt =====
-- The invariant of the parser's state, and that `push` keeps it.
use omni_sem.Base.{
  ℕ, ◌+◌, ◌≤◌, ◌≡◌, ◌≢◌, refl, sym, ◌∙◌, List, [], ◌∷◌, ◌++◌, Text, length, arith, All, All-imp,
  All-append, Distinct, Distinct-snoc, length-append,
}
use omni_sem.Domain.{SegmentType}
use omni_sem.Parsing.{ParsedSegment}
use omni_sem.Parsing.Markdown.{
  MarkdownParseState, AnchorCounts, count_of, count_up, numbered_anchor, push, push_pieces,
}
use omni_sem.Parsing.Markdown.Slug.{NoTilde}
use omni_sem.Parsing.Markdown.Anchors.{count_of-count_up, count_of_le, numbered_anchor-injective}

-- The ordinals count from `n` on.
abbrev pub Ordinals : ℕ → List ParsedSegment → Type 0
Ordinals n [] = Unit
Ordinals n (s ∷ segments) = (s.ordinal ≡ n) × Ordinals (n + 1) segments

-- The anchor is a base without a tilde with one of the counts that were given out.
abbrev pub IsNamed : AnchorCounts → Text → Type 0
IsNamed anchors anchor =
    (base : Text) × (k : ℕ) × NoTilde base
    × (k ≤ count_of base anchors)
    × (anchor ≡ numbered_anchor base k)

-- The parts of the state that segments are made of.
pub record Sound (segments : List ParsedSegment) (ordinal : ℕ) (anchors : AnchorCounts)
    (heading_stack : List (ℕ × Text)) : Type 0 where
  pub numbered : Ordinals 0 segments
  pub next : ordinal ≡ length segments
  pub named : All (λ (s : ParsedSegment). IsNamed anchors s.anchor) segments
  pub distinct : Distinct (λ (s : ParsedSegment). s.anchor) segments
  pub plain : All (λ (entry : ℕ × Text). NoTilde entry.1) heading_stack

abbrev pub IsSound : MarkdownParseState → Type 0
IsSound s = Sound s.segments s.ordinal s.anchors s.heading_stack

Ordinals-snoc :
    (n : ℕ) (segments : List ParsedSegment) (s : ParsedSegment)
    → Ordinals n segments
    → s.ordinal ≡ n + length segments
    → Ordinals n (segments ++ s ∷ [])
Ordinals-snoc n [] s h e = (omega (arith, e), tt)
Ordinals-snoc n (x ∷ segments) s (o, h) e =
    (o, Ordinals-snoc (n + 1) segments s h (omega (arith, e)))

IsNamed-count_up :
    (base : Text) (anchors : AnchorCounts) (anchor : Text)
    → IsNamed anchors anchor
    → IsNamed (count_up base anchors) anchor
IsNamed-count_up base anchors anchor (b, k, plain, bound, e) =
    (b, k, plain, omega (arith, count_of_le b base anchors), e)

-- The next anchor of a base is none of those given out.
fresh :
    (base : Text) (anchors : AnchorCounts) (anchor : Text)
    → NoTilde base
    → IsNamed anchors anchor
    → numbered_anchor base (count_of base (count_up base anchors)) ≢ anchor
fresh base anchors anchor plain (b, k, plain', bound, e) same =
    let (p, q) =
      numbered_anchor-injective base b (count_of base (count_up base anchors)) k plain plain'
        (same ∙ e) in
    let bound' : k ≤ count_of base anchors = rw (sym p) at bound in
    absurd (omega (arith, count_of-count_up base anchors, q, bound'))

pub push-IsSound :
    (t : SegmentType) (base text : Text) (state : MarkdownParseState)
    → NoTilde base
    → IsSound state
    → IsSound (push t base text state)
unfolding push
push-IsSound t base text state plain h =
    let anchors = count_up base state.anchors in
    let s : ParsedSegment = record {
      segment_type = t;
      anchor = numbered_anchor base (count_of base anchors);
      ordinal = state.ordinal;
      text = text;
    } in
    record {
      numbered = Ordinals-snoc 0 state.segments s h.numbered (omega (arith, h.next));
      next = omega (arith, h.next, length-append {0} state.segments (s ∷ []));
      named =
          All-append (λ (x : ParsedSegment). IsNamed anchors x.anchor) state.segments (s ∷ [])
            (All-imp (λ (x : ParsedSegment). IsNamed-count_up base state.anchors x.anchor)
              state.segments h.named)
            ((base, count_of base anchors, plain, omega arith, refl), tt);
      distinct =
          Distinct-snoc (λ (x : ParsedSegment). x.anchor) state.segments s
            (All-imp (λ (x : ParsedSegment). fresh base state.anchors x.anchor plain) state.segments
              h.named)
            h.distinct;
      plain = h.plain;
    }

pub push_pieces-IsSound :
    (t : SegmentType) (base : Text) (pieces : List Text) (state : MarkdownParseState)
    → NoTilde base
    → IsSound state
    → IsSound (push_pieces t base pieces state)
unfolding push_pieces
push_pieces-IsSound t base [] state plain h = h
push_pieces-IsSound t base (piece ∷ pieces) state plain h =
    push_pieces-IsSound t base pieces (push t base piece state) plain
      (push-IsSound t base piece state plain h)
