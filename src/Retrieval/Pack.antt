-- ===== src/Retrieval/Pack.antt =====
-- `pack_results` of crates/omnisem-core/src/retrieval.rs: the hits of a response within the limit,
-- the token budget and the byte cap. `estimator` is the one estimator of the program.
pub mod Steps
pub mod Budget
pub mod Prefix
mod Examples
use omni_sem.Base.{
  ℕ, ◌+◌, ◌-◌, ◌*◌, min, max, Bool, true, false, ◌||◌, List, [], ◌∷◌, ◌++◌, Text, codes, ltb, leb,
  if◌then◌else◌, length, take, is_empty, saturating_add, to_u32, usize_max,
}
use omni_sem.Domain.{RetrievalHit}
use omni_sem.Tokens.{
  response_overhead_tokens, result_overhead_tokens, hard_byte_cap, max_hit_text_bytes, byte_len,
  estimate, truncate_utf8,
}

pub record Packed (F : Type 0) : Type 0 where
  pub results : List (RetrievalHit F)
  pub truncated : Bool
  pub warnings : List Text

-- The variables of the loop.
pub record PackState (F : Type 0) : Type 0 where
  pub selected : List (RetrievalHit F)
  pub used_tokens : ℕ
  pub used_bytes : ℕ
  pub truncated : Bool
  pub warnings : List Text

-- One round breaks, or goes on with the next hit.
pub data PackStep (F : Type 0) : Type 0 where
  stop : PackState F → PackStep F
  more : PackState F → PackStep F

budget_warning : Text
budget_warning = codes "top result truncated to fit the configured token budget"

module _ {F : Type 0} where
  -- The top result, cut to what the budget and the byte cap leave.
  pub shorten : ℕ → PackState F → Text → Text
  shorten budget s text =
      let allowed_tokens = budget - (s.used_tokens + result_overhead_tokens) in
      let max_chars = max (min (allowed_tokens * 3) usize_max) 1 in
      let byte_bound = max (hard_byte_cap - s.used_bytes) 1 in
      (truncate_utf8 (take max_chars text) (min byte_bound max_hit_text_bytes)).0

  -- The end of a round: the hit joins the selection with the text and flag that were settled.
  pub accept : PackState F → RetrievalHit F → Text → Bool → PackState F
  accept s hit text text_truncated =
      let cost = result_overhead_tokens + estimate text in
      record s {
        selected =
            s.selected
            ++ record hit { text = text; truncated = text_truncated; token_estimate = to_u32 cost }
              ∷ [];
        used_tokens = saturating_add s.used_tokens cost;
        used_bytes = saturating_add s.used_bytes (byte_len text);
      }

  pub warn_over_budget : ℕ → PackState F → Text → PackState F
  warn_over_budget budget s short =
      if ltb budget (saturating_add s.used_tokens (result_overhead_tokens + estimate short))
      then record s { warnings = s.warnings ++ budget_warning ∷ [] }
      else s

  pub exceeds : ℕ → PackState F → Text → Bool
  exceeds budget s text =
      ltb budget (saturating_add s.used_tokens (result_overhead_tokens + estimate text))
      || ltb hard_byte_cap (saturating_add s.used_bytes (byte_len text))

  pub pack_step : ℕ → ℕ → PackState F → RetrievalHit F → PackStep F
  pack_step limit budget s hit =
      if leb limit (length s.selected)
      then stop (record s { truncated = true })
      else if exceeds budget s hit.text
      then (if is_empty s.selected
          then (let short = shorten budget s hit.text in
              more (accept (warn_over_budget budget s short) hit short true))
          else stop (record s { truncated = true }))
      else more (accept s hit hit.text hit.truncated)

  pub pack_loop : ℕ → ℕ → PackState F → List (RetrievalHit F) → PackState F
  pack_loop limit budget s [] = s
  pack_loop limit budget s (hit ∷ hits) = elim (pack_step limit budget s hit) [
    | stop s' ↦ s'
    | more s' ↦ pack_loop limit budget s' hits
  ]

  pub hits_remaining_after : List (RetrievalHit F) → ℕ → Bool
  hits_remaining_after selected limit = leb limit (length selected)

  pub start : Text → List Text → PackState F
  start query warnings = record {
    selected = [];
    used_tokens = response_overhead_tokens + estimate query;
    used_bytes = 0;
    truncated = false;
    warnings = warnings;
  }

  unfoldable pub pack_results : Text → List (RetrievalHit F) → ℕ → ℕ → List Text → Packed F
  unfolding pack_loop start hits_remaining_after pack_step accept exceeds shorten warn_over_budget
      budget_warning
  pack_results query hits limit token_budget warnings =
      let s = pack_loop limit token_budget (start query warnings) hits in
      record {
        results = s.selected;
        truncated = if hits_remaining_after s.selected limit then true else s.truncated;
        warnings = s.warnings;
      }
