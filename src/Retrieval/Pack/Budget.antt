-- ===== src/Retrieval/Pack/Budget.antt =====
-- The token budget, the byte cap and the limit hold of what `pack_results` selects.
use omni_sem.Base.{
  ℕ, ◌+◌, ◌-◌, ◌*◌, ◌≤◌, ◌<◌, ◌≡◌, refl, sym, ap, ◌∙◌, inl, inr, Bool, true, List, [], ◌∷◌, ◌++◌,
  Text, length, take, map, arith, u32_max, usize_max, saturating_add, length-append, length-take,
  min, max, map-append,
}
use omni_sem.Domain.{RetrievalHit}
use omni_sem.Tokens.{
  response_overhead_tokens, result_overhead_tokens, hard_byte_cap, max_hit_text_bytes, byte_len,
  estimate, estimate_response_tokens, truncate_utf8,
}
use omni_sem.Tokens.Truncation.{truncate_utf8_bounds}
use omni_sem.Tokens.Response.{estimate_iff, response-append, response-nil}
use omni_sem.Retrieval.Pack.{
  PackState, shorten, accept, warn_over_budget, pack_loop, start, pack_results,
}
use omni_sem.Retrieval.Pack.Steps.{pack_step-cases, pack_loop-more, pack_loop-stop}

-- The bytes of the texts of a selection.
pub text_bytes : List Text → ℕ
text_bytes [] = 0
text_bytes (t ∷ ts) = byte_len t + text_bytes ts

text_bytes-append :
    (ts : List Text) (t : Text) → text_bytes (ts ++ t ∷ []) ≡ text_bytes ts + byte_len t
unfolding text_bytes
text_bytes-append [] t = omega arith
text_bytes-append (u ∷ ts) t = omega (arith, text_bytes-append ts t)

abbrev pub texts : {F : Type 0} → List (RetrievalHit F) → List Text
texts = map (λ hit. hit.text)

-- The budget leaves room for the overheads and one token of text.
abbrev pub HasRoom : Text → ℕ → Type 0
HasRoom query budget =
    response_overhead_tokens + estimate query + result_overhead_tokens + 1 ≤ budget

shorten_bounds :
    {F : Type 0} (budget : ℕ) (s : PackState F) (text : Text)
    → s.used_tokens + result_overhead_tokens + 1 ≤ budget
    → (s.used_tokens + (result_overhead_tokens + estimate (shorten budget s text)) ≤ budget)
      × (byte_len (shorten budget s text) ≤ max_hit_text_bytes + 3)
unfolding shorten
shorten_bounds budget s text h =
    let left = budget - (s.used_tokens + result_overhead_tokens) in
    let max_chars = max (min (left * 3) usize_max) 1 in
    let bound = min (max (hard_byte_cap - s.used_bytes) 1) max_hit_text_bytes in
    let (bytes, chars) = truncate_utf8_bounds (take max_chars text) bound in
    let taken = length-take max_chars text in
    let cost = (estimate_iff (truncate_utf8 (take max_chars text) bound).0 left).1 (omega arith) in
    (omega arith, omega arith)

module _ {F : Type 0} (query : Text) (limit budget : ℕ) where
  pub record Within (s : PackState F) : Type 0 where
    pub tokens : s.used_tokens ≡ estimate_response_tokens query (texts s.selected)
    pub budgeted : s.used_tokens ≤ budget
    pub bytes : s.used_bytes ≡ text_bytes (texts s.selected)
    pub capped : s.used_bytes ≤ hard_byte_cap
    pub count : length s.selected ≤ limit

  accept-Within :
      (s : PackState F) (hit : RetrievalHit F) (text : Text) (text_truncated : Bool)
      → budget ≤ u32_max
      → Within s
      → length s.selected < limit
      → s.used_tokens + (result_overhead_tokens + estimate text) ≤ budget
      → s.used_bytes + byte_len text ≤ hard_byte_cap
      → Within (accept s hit text text_truncated)
  unfolding accept
  accept-Within s hit text text_truncated k w room tokens bytes = record {
    tokens =
        rw (map-append, response-append)
          (ap (λ u. saturating_add u (result_overhead_tokens + estimate text)) w.tokens);
    budgeted = omega arith;
    bytes = rw (map-append, text_bytes-append) (omega (arith, w.bytes));
    capped = omega arith;
    count = rw length-append (omega arith);
  }

  same-Within : (s : PackState F) → Within s → Within (record s { truncated = true })
  same-Within s w = record {
    tokens = w.tokens;
    budgeted = w.budgeted;
    bytes = w.bytes;
    capped = w.capped;
    count = w.count;
  }

  first_tokens :
      (s : PackState F)
      → Within s
      → s.selected ≡ []
      → s.used_tokens ≡ response_overhead_tokens + estimate query
  first_tokens s w e =
      w.tokens ∙ ap (λ hits. estimate_response_tokens query (texts hits)) e ∙ response-nil query

  first_bytes : (s : PackState F) → Within s → s.selected ≡ [] → s.used_bytes ≡ 0
  unfolding text_bytes
  first_bytes s w e = w.bytes ∙ ap (λ hits. text_bytes (texts hits)) e

  module _ (small : budget ≤ u32_max) (room : HasRoom query budget) where
    shortened-Within :
        (s : PackState F) (hit : RetrievalHit F)
        → Within s
        → length s.selected < limit
        → s.selected ≡ []
        → (warn_over_budget budget s (shorten budget s hit.text) ≡ s)
          × Within (accept s hit (shorten budget s hit.text) true)
    unfolding warn_over_budget
    shortened-Within s hit w below first =
        let used = first_tokens s w first in
        let none_yet = first_bytes s w first in
        let (tokens, bytes) = shorten_bounds budget s hit.text (omega arith) in
        (
          ground arith,
          accept-Within s hit (shorten budget s hit.text) true small w below tokens (omega arith),
        )

    start-Within : (warnings : List Text) → Within (start query warnings)
    unfolding start text_bytes
    start-Within warnings = record {
      tokens = sym (response-nil query);
      budgeted = omega arith;
      bytes = refl;
      capped = omega arith;
      count = omega arith;
    }

    pub pack_loop-Within :
        (s : PackState F) (hits : List (RetrievalHit F))
        → Within s
        → Within (pack_loop limit budget s hits)
          × ((pack_loop limit budget s hits).warnings ≡ s.warnings)
    unfolding pack_loop accept
    pack_loop-Within s [] w = (w, refl)
    pack_loop-Within s (hit ∷ hits) w = elim (pack_step-cases limit budget s hit small) [
      | inl stops ↦ rw (pack_loop-stop limit budget s hit _ hits stops.step) (same-Within s w, refl)
      | inr (inl short) ↦
          let (quiet, w') = shortened-Within s hit w short.room short.first in
          rw (pack_loop-more limit budget s hit _ hits short.step, quiet)
            (pack_loop-Within (accept s hit (shorten budget s hit.text) true) hits w')
      | inr (inr fits) ↦ rw (pack_loop-more limit budget s hit _ hits fits.step) (
          pack_loop-Within (accept s hit hit.text hit.truncated) hits
            (accept-Within s hit hit.text hit.truncated small w fits.room fits.tokens fits.bytes))
    ]

-- When the budget fits 32 bits and leaves room for the overheads and one token of text, the selected
-- hits are at most `limit` in number, the estimate of the response with their texts is within the
-- token budget, their texts are within the byte cap, and no warning is added.
pub pack_results-budget :
    {F : Type 0} (query : Text) (hits : List (RetrievalHit F)) (limit budget : ℕ)
    (warnings : List Text)
    → budget ≤ u32_max
    → HasRoom query budget
    → (length (pack_results query hits limit budget warnings).results ≤ limit)
      × (estimate_response_tokens query
            (texts (pack_results query hits limit budget warnings).results)
          ≤ budget)
      × (text_bytes (texts (pack_results query hits limit budget warnings).results) ≤ hard_byte_cap)
      × ((pack_results query hits limit budget warnings).warnings ≡ warnings)
unfolding pack_results
pack_results-budget {F} query hits limit budget warnings small room =
    let (w, quiet) =
      pack_loop-Within query limit budget small room (start query warnings) hits
        (start-Within {F = F} query limit budget small room warnings) in
    (w.count, rw (← w.tokens) w.budgeted, rw (← w.bytes) w.capped, quiet)
