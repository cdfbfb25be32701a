-- ===== src/Retrieval/Pack/Steps.antt =====
-- One round of `pack_results`, by its four outcomes.
use omni_sem.Base.{
  ℕ, ◌+◌, ◌≤◌, ◌<◌, ◌≡◌, refl, ◌⊎◌, inl, inr, true, false, List, [], ◌∷◌, length, arith, u32_max,
  is_empty, Bool-cases, leb,
}
use omni_sem.Domain.{RetrievalHit}
use omni_sem.Tokens.{result_overhead_tokens, hard_byte_cap, byte_len, estimate}
use omni_sem.Retrieval.Pack.{
  PackState, stop, more, shorten, accept, warn_over_budget, exceeds, pack_step, pack_loop,
}

nil_of_is_empty {ℓ} : {A : Type ℓ} (xs : List A) → is_empty xs ≡ true → xs ≡ []
nil_of_is_empty [] h = refl
nil_of_is_empty (x ∷ xs) h = cc

pos_of_is_empty {ℓ} : {A : Type ℓ} (xs : List A) → is_empty xs ≡ false → 0 < length xs
pos_of_is_empty [] h = cc
pos_of_is_empty (x ∷ xs) h = omega arith

module _ {F : Type 0} (limit budget : ℕ) (s : PackState F) (hit : RetrievalHit F) where
  -- A hit that fits beside those already selected.
  pub record Fits : Type 0 where
    pub step : pack_step limit budget s hit ≡ more (accept s hit hit.text hit.truncated)
    pub room : length s.selected < limit
    pub tokens : s.used_tokens + (result_overhead_tokens + estimate hit.text) ≤ budget
    pub bytes : s.used_bytes + byte_len hit.text ≤ hard_byte_cap

  -- The first hit, where it does not fit as it is.
  pub record Shortened : Type 0 where
    pub step :
        pack_step limit budget s hit
        ≡ more (
            accept
              (warn_over_budget budget s (shorten budget s hit.text))
              hit
              (shorten budget s hit.text)
              true)
    pub room : length s.selected < limit
    pub first : s.selected ≡ []

  -- Limit reached, or a later hit that does not fit.
  pub record Stops : Type 0 where
    pub step : pack_step limit budget s hit ≡ stop (record s { truncated = true })
    pub reason : (limit ≤ length s.selected) ⊎ (0 < length s.selected)

  -- With a budget that fits 32 bits the saturating sums are the sums.
  within_of_exceeds :
      budget ≤ u32_max
      → exceeds budget s hit.text ≡ false
      → (s.used_tokens + (result_overhead_tokens + estimate hit.text) ≤ budget)
        × (s.used_bytes + byte_len hit.text ≤ hard_byte_cap)
  unfolding exceeds
  within_of_exceeds k h = ground arith

  pub pack_step-cases : budget ≤ u32_max → Stops ⊎ (Shortened ⊎ Fits)
  unfolding pack_step
  pack_step-cases k = elim (Bool-cases (leb limit (length s.selected))) [
    | inl full ↦ inl (record { step = rw full refl; reason = ground arith })
    | inr room ↦ elim (Bool-cases (exceeds budget s hit.text)) [
      | inl over ↦ elim (Bool-cases (is_empty s.selected)) [
        | inl first ↦ inr (
            inl (record {
              step = rw (room, over, first) refl;
              room = ground arith;
              first = nil_of_is_empty s.selected first;
            }))
        | inr later ↦ inl (record {
          step = rw (room, over, later) refl;
          reason = inr (pos_of_is_empty s.selected later);
        })
      ]
      | inr fits ↦
          let (tokens, bytes) = within_of_exceeds k fits in
          inr (
            inr (record {
              step = rw (room, fits) refl;
              room = ground arith;
              tokens = tokens;
              bytes = bytes;
            }))
    ]
  ]

  -- The loop after each outcome.
  pub pack_loop-more :
      (s' : PackState F) (hits : List (RetrievalHit F))
      → pack_step limit budget s hit ≡ more s'
      → pack_loop limit budget s (hit ∷ hits) ≡ pack_loop limit budget s' hits
  unfolding pack_loop
  pack_loop-more s' hits e = rw (e, pack_loop)

  pub pack_loop-stop :
      (s' : PackState F) (hits : List (RetrievalHit F))
      → pack_step limit budget s hit ≡ stop s'
      → pack_loop limit budget s (hit ∷ hits) ≡ s'
  unfolding pack_loop
  pack_loop-stop s' hits e = rw (e, pack_loop)
