-- ===== src/Retrieval/Pack/Prefix.antt =====
-- Which hits `pack_results` returns, in what order, and when it says that some were left out.
use omni_sem.Base.{
  ℕ, ◌≤◌, ◌<◌, ◌≡◌, ◌↔◌, refl, ◌⊎◌, inl, inr, Bool, true, false, List, [], ◌∷◌, ◌++◌, Text, length,
  arith, u32_max, leb, if◌then◌else◌, append-nil, append_assoc, length-append,
}
use omni_sem.Domain.{RetrievalHit}
use omni_sem.Retrieval.Pack.{
  PackState, shorten, accept, warn_over_budget, pack_loop, start, pack_results,
}
use omni_sem.Retrieval.Pack.Steps.{pack_step-cases, pack_loop-more, pack_loop-stop}

module _ {F : Type 0} where
  -- A returned hit is the candidate up to its text, its flag and its token estimate; where the text
  -- differs, the hit is flagged as truncated.
  pub record Returns (hit result : RetrievalHit F) : Type 0 where
    pub same :
        record result {
          text = hit.text;
          truncated = hit.truncated;
          token_estimate = hit.token_estimate;
        }
        ≡ hit
    pub shown :
        ((result.text ≡ hit.text) × (result.truncated ≡ hit.truncated)) ⊎ (result.truncated ≡ true)

  -- The results are the first hits, in order.
  abbrev pub Prefix : List (RetrievalHit F) → List (RetrievalHit F) → Type 0
  Prefix [] hits = Unit
  Prefix (r ∷ rs) [] = ⊥
  Prefix (r ∷ rs) (h ∷ hits) = Returns h r × Prefix rs hits

  Prefix-extend :
      (rs hits : List (RetrievalHit F)) {h r : RetrievalHit F} (rest : List (RetrievalHit F))
      → length rs ≡ length hits
      → Prefix rs hits
      → Returns h r
      → Prefix (rs ++ r ∷ []) (hits ++ h ∷ rest)
  Prefix-extend [] [] rest e p q = (q, tt)
  Prefix-extend [] (h ∷ hits) rest e p q = absurd (omega arith)
  Prefix-extend (r ∷ rs) [] rest e p q = absurd (omega arith)
  Prefix-extend (r ∷ rs) (h ∷ hits) rest e (q0, p) q =
      (q0, Prefix-extend rs hits rest (omega arith) p q)

  Prefix-weaken : (rs hits rest : List (RetrievalHit F)) → Prefix rs hits → Prefix rs (hits ++ rest)
  Prefix-weaken [] hits rest p = tt
  Prefix-weaken (r ∷ rs) [] rest p = absurd p
  Prefix-weaken (r ∷ rs) (h ∷ hits) rest (q, p) = (q, Prefix-weaken rs hits rest p)

  -- The state after the hits `done`, none of which was left out.
  pub record Taken (done : List (RetrievalHit F)) (s : PackState F) : Type 0 where
    pub prefix : Prefix s.selected done
    pub count : length s.selected ≡ length done
    pub unflagged : s.truncated ≡ false

  -- The state when the loop has ended, over all the hits.
  pub record Ended (hits : List (RetrievalHit F)) (s : PackState F) : Type 0 where
    pub prefix : Prefix s.selected hits
    pub all_or_flagged :
        ((s.truncated ≡ false) × (length s.selected ≡ length hits))
        ⊎ ((s.truncated ≡ true) × (length s.selected < length hits))
    pub nonempty : (length hits ≡ 0) ⊎ (0 < length s.selected)

  accept-Taken :
      (s : PackState F) (hit : RetrievalHit F) (text : Text) (text_truncated : Bool)
      (done : List (RetrievalHit F))
      → ((text ≡ hit.text) × (text_truncated ≡ hit.truncated)) ⊎ (text_truncated ≡ true)
      → Taken done s
      → Taken (done ++ hit ∷ []) (accept s hit text text_truncated)
  unfolding accept
  accept-Taken s hit text text_truncated done shown t = record {
    prefix =
        Prefix-extend s.selected done [] t.count t.prefix (record { same = refl; shown = shown });
    count = rw (length-append, length-append) (omega arith);
    unflagged = t.unflagged;
  }

  stop-Ended :
      (limit : ℕ) (s : PackState F) (done hits : List (RetrievalHit F)) (hit : RetrievalHit F)
      → 0 < limit
      → (limit ≤ length s.selected) ⊎ (0 < length s.selected)
      → Taken done s
      → Ended (done ++ hit ∷ hits) (record s { truncated = true })
  stop-Ended limit s done hits hit pos reason t = record {
    prefix = Prefix-weaken s.selected done (hit ∷ hits) t.prefix;
    all_or_flagged = inr (refl, omega (arith, length-append done (hit ∷ hits), t.count));
    nonempty = ground arith;
  }

  warn-Taken :
      (budget : ℕ) (s : PackState F) (text : Text) (done : List (RetrievalHit F))
      → Taken done s
      → Taken done (warn_over_budget budget s text)
  unfolding warn_over_budget
  warn-Taken budget s text done t =
      let s' = warn_over_budget budget s text in
      let same : s' ≡ record s { warnings = s'.warnings } = ground arith in
      rw same (record { prefix = t.prefix; count = t.count; unflagged = t.unflagged })

  pack_loop-Ended :
      (limit budget : ℕ) (s : PackState F) (done hits : List (RetrievalHit F))
      → 0 < limit
      → budget ≤ u32_max
      → Taken done s
      → Ended (done ++ hits) (pack_loop limit budget s hits)
  unfolding pack_loop warn_over_budget
  pack_loop-Ended limit budget s done [] pos small t = rw append-nil (record {
    prefix = t.prefix;
    all_or_flagged = inl (t.unflagged, t.count);
    nonempty = ground (arith, t.count);
  })
  pack_loop-Ended limit budget s done (hit ∷ hits) pos small t =
      elim (pack_step-cases limit budget s hit small) [
        | inl stops ↦
            rw (pack_loop-stop limit budget s hit _ hits stops.step)
              (stop-Ended limit s done hits hit pos stops.reason t)
        | inr (inl short) ↦
            let text = shorten budget s hit.text in
            let s' = warn_over_budget budget s text in
            rw
              (
                pack_loop-more limit budget s hit _ hits short.step,
                ← append_assoc done (hit ∷ []) hits,
              )
              (pack_loop-Ended limit budget (accept s' hit text true) (done ++ hit ∷ []) hits pos
                small
                (accept-Taken s' hit text true done (inr refl) (warn-Taken budget s text done t)))
        | inr (inr fits) ↦
            rw
              (
                pack_loop-more limit budget s hit _ hits fits.step,
                ← append_assoc done (hit ∷ []) hits,
              )
              (pack_loop-Ended limit budget (accept s hit hit.text hit.truncated) (done ++ hit ∷ [])
                hits pos small
                (accept-Taken s hit hit.text hit.truncated done (inl (refl, refl)) t))
      ]

flag_iff :
    (kept all limit : ℕ) (flag : Bool)
    → ((flag ≡ false) × (kept ≡ all)) ⊎ ((flag ≡ true) × (kept < all))
    → ((if leb limit kept then true else flag) ≡ false) ↔ ((kept ≡ all) × (all < limit))
flag_iff kept all limit flag h = (λ e. ground arith, λ e. ground arith)

-- The results are the first hits in order, each the candidate itself up to its text, truncation flag
-- and token estimate. With a positive limit and a budget of 32 bits, a response to a non-empty
-- list of hits is not empty, and it is left unflagged exactly when it holds every hit and is
-- shorter than the limit.
pub pack_results-prefix :
    {F : Type 0} (query : Text) (hits : List (RetrievalHit F)) (limit budget : ℕ)
    (warnings : List Text)
    → 0 < limit
    → budget ≤ u32_max
    → Prefix (pack_results query hits limit budget warnings).results hits
      × ((length hits ≡ 0) ⊎ (0 < length (pack_results query hits limit budget warnings).results))
      × (((pack_results query hits limit budget warnings).truncated ≡ false) ↔ (
          (length (pack_results query hits limit budget warnings).results ≡ length hits)
          × (length hits < limit)))
unfolding pack_results
pack_results-prefix query hits limit budget warnings pos small =
    let t =
      pack_loop-Ended limit budget (start query warnings) [] hits pos small
        (record { prefix = tt; count = refl; unflagged = refl }) in
    (t.prefix, t.nonempty, flag_iff _ _ limit _ t.all_or_flagged)
