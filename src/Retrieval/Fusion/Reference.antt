-- ===== src/Retrieval/Fusion/Reference.antt =====
-- Fusion, text hash by text hash: the candidates with a hash, the one that stands for them, and the
-- sum of the contributions that count.
use omni_sem.Base.{
  ◌≡◌, refl, sym, ap, subst, ◌∙◌, true, false, not, Option, none, some, List, [], ◌∷◌, Text,
  if◌then◌else◌, text_eq, text_eq_iff, filter, arith, inl, inr, Bool-cases, is_empty,
}
use omni_sem.Domain.{RetrievalHit}
use omni_sem.Retrieval.Env.{Floats}
use omni_sem.Retrieval.Fusion.{
  reciprocal_rank, is_local, Acc, lookup, set_entry, first_acc, accumulate, merge_hit,
  merge_signals,
}
use omni_sem.Retrieval.Fusion.Stream.{Ranked, merge_all}

module _ {F : Type 0} where
  -- The candidates with a text hash.
  abbrev pub with_hash : Text → List (Ranked F) → List (Ranked F)
  with_hash h = filter (λ r. text_eq r.hit.text_hash h)

  -- The local candidates.
  abbrev pub locals : List (Ranked F) → List (Ranked F)
  locals = filter (λ r. is_local r.hit.origin)

  -- Local candidates alone count, where there are any.
  abbrev pub counted : List (Ranked F) → List (Ranked F)
  counted rs = if is_empty (locals rs) then rs else locals rs

  lookup-set_entry :
      (key j : Text) (acc : Acc F) (best : List (Text × Acc F))
      → lookup j (set_entry key acc best) ≡ (if text_eq key j then some acc else lookup j best)
  unfolding lookup set_entry
  lookup-set_entry key j acc [] = refl
  lookup-set_entry key j acc ((k, old) ∷ best) = ground (
    arith,
    text_eq_iff key j,
    text_eq_iff k key,
    text_eq_iff k j,
    lookup-set_entry key j acc best,
  )

module _ {F : Type 0} (floats : Floats F) where
  -- The entry of one text hash over the candidates that have it.
  unfoldable pub fold_acc : Option (Acc F) → List (Ranked F) → Option (Acc F)
  fold_acc entry [] = entry
  fold_acc entry (r ∷ rs) = fold_acc (some (accumulate floats entry r.rank r.hit)) rs

  pub lookup-merge_all :
      (h : Text) (best : List (Text × Acc F)) (rs : List (Ranked F))
      → lookup h (merge_all floats best rs) ≡ fold_acc (lookup h best) (with_hash h rs)
  unfolding merge_all merge_hit fold_acc
  lookup-merge_all h best [] = refl
  lookup-merge_all h best (r ∷ rs) =
      let key = r.hit.text_hash in
      let acc = accumulate floats (lookup key best) r.rank r.hit in
      let step = lookup-merge_all h (set_entry key acc best) rs in
      elim (Bool-cases (text_eq key h)) [
        | inl same ↦
            rw (step, lookup-set_entry, same)
              (ap
                (λ k.
                  fold_acc (some (accumulate floats (lookup k best) r.rank r.hit)) (with_hash h rs))
                ((text_eq_iff key h).0 same))
        | inr other ↦ rw (step, lookup-set_entry, other) refl
      ]

  -- The contributions of candidates, added in order.
  pub sum_from : F → List (Ranked F) → F
  sum_from total [] = total
  sum_from total (r ∷ rs) = sum_from (floats.add total (reciprocal_rank floats r.rank)) rs

  -- A merged hit is the candidate up to its signals, explanation and score.
  abbrev pub SameEvidence : RetrievalHit F → RetrievalHit F → Type 0
  SameEvidence hit merged =
      record merged { signals = hit.signals; explanation = hit.explanation; score = hit.score }
      ≡ hit

  -- The first of the counted candidates stands for all, and the score is the sum of the counted
  -- contributions.
  pub record Fuses (rs : List (Ranked F)) (acc : Acc F) : Type 0 where
    pub first : Ranked F
    pub rest : List (Ranked F)
    pub group : counted rs ≡ first ∷ rest
    pub evidence : SameEvidence first.hit acc.hit
    pub score : acc.score ≡ sum_from (reciprocal_rank floats first.rank) rest
    pub local : acc.local ≡ not (is_empty (locals rs))

  merged_evidence :
      (hit target incoming : RetrievalHit F)
      → SameEvidence hit target
      → SameEvidence hit (merge_signals target incoming)
  unfolding merge_signals
  merged_evidence hit target incoming e = e

  -- Once the entry is local, local candidates alone add to it.
  record FromLocal (acc : Acc F) (rs : List (Ranked F)) : Type 0 where
    last : Acc F
    folds : fold_acc (some acc) rs ≡ some last
    local : last.local ≡ true
    score : last.score ≡ sum_from acc.score (locals rs)
    evidence : (hit : RetrievalHit F) → SameEvidence hit acc.hit → SameEvidence hit last.hit

  from_local : (acc : Acc F) (rs : List (Ranked F)) → acc.local ≡ true → FromLocal acc rs
  unfolding fold_acc sum_from accumulate merge_signals
  from_local acc [] l = record {
    last = acc;
    folds = refl;
    local = l;
    score = refl;
    evidence = λ hit e. e;
  }
  from_local acc (r ∷ rs) l = elim (Bool-cases (is_local r.hit.origin)) [
    | inl here ↦
        let next = record acc {
          score = floats.add acc.score (reciprocal_rank floats r.rank);
          hit = merge_signals acc.hit r.hit;
        } in
        let step : accumulate floats (some acc) r.rank r.hit ≡ next =
          rw (accumulate, l, here) refl in
        let ih = from_local next rs l in
        record {
          last = ih.last;
          folds = rw step ih.folds;
          local = ih.local;
          score = rw here ih.score;
          evidence = λ hit e. ih.evidence hit (merged_evidence hit acc.hit r.hit e);
        }
    | inr elsewhere ↦
        let step : accumulate floats (some acc) r.rank r.hit ≡ acc =
          rw (accumulate, l, elsewhere) refl in
        let ih = from_local acc rs l in
        record {
          last = ih.last;
          folds = rw step ih.folds;
          local = ih.local;
          score = rw elsewhere ih.score;
          evidence = ih.evidence;
        }
  ]

  -- From an entry that is not local, all count until a local candidate comes and starts anew.
  data FromOther (acc : Acc F) (rs : List (Ranked F)) : Type 0 where
    all_other :
        (last : Acc F)
        → fold_acc (some acc) rs ≡ some last
        → last.local ≡ false
        → is_empty (locals rs) ≡ true
        → last.score ≡ sum_from acc.score rs
        → ((hit : RetrievalHit F) → SameEvidence hit acc.hit → SameEvidence hit last.hit)
        → FromOther acc rs
    local_wins :
        (last : Acc F) (first : Ranked F) (rest : List (Ranked F))
        → fold_acc (some acc) rs ≡ some last
        → last.local ≡ true
        → locals rs ≡ first ∷ rest
        → last.score ≡ sum_from (reciprocal_rank floats first.rank) rest
        → SameEvidence first.hit last.hit
        → FromOther acc rs

  FromOther-step :
      (acc next : Acc F) (r : Ranked F) (rs : List (Ranked F))
      → next ≡ record acc { score = floats.add acc.score (reciprocal_rank floats r.rank) }
      → accumulate floats (some acc) r.rank r.hit ≡ next
      → is_local r.hit.origin ≡ false
      → FromOther next rs
      → FromOther acc (r ∷ rs)
  unfolding fold_acc sum_from
  FromOther-step acc next r rs e step other (all_other last folds l empty score keeps) =
      all_other last (rw step folds) l (rw other empty)
        (score ∙ ap (λ (a : Acc F). sum_from a.score rs) e)
        (λ hit same. keeps hit (subst (λ (a : Acc F). SameEvidence hit a.hit) (sym e) same))
  FromOther-step acc next r rs e step other (local_wins last first rest folds l group score same) =
      local_wins last first rest (rw step folds) l (rw other group) score same

  from_other : (acc : Acc F) (rs : List (Ranked F)) → acc.local ≡ false → FromOther acc rs
  unfolding fold_acc sum_from accumulate first_acc
  from_other acc [] l = all_other acc refl l refl refl (λ hit e. e)
  from_other acc (r ∷ rs) l = elim (Bool-cases (is_local r.hit.origin)) [
    | inl here ↦
        let next = first_acc floats r.hit (reciprocal_rank floats r.rank) in
        let step : accumulate floats (some acc) r.rank r.hit ≡ next =
          rw (accumulate, l, here) refl in
        let onward = from_local next rs here in
        local_wins onward.last r (locals rs) (rw step onward.folds) onward.local (rw here refl)
          onward.score (onward.evidence r.hit refl)
    | inr elsewhere ↦
        let next = record acc { score = floats.add acc.score (reciprocal_rank floats r.rank) } in
        let step : accumulate floats (some acc) r.rank r.hit ≡ next =
          rw (accumulate, l, elsewhere) refl in
        FromOther-step acc next r rs refl step elsewhere (from_other next rs l)
  ]

  Fuses-other :
      (r : Ranked F) (rs : List (Ranked F))
      → is_local r.hit.origin ≡ false
      → FromOther (first_acc floats r.hit (reciprocal_rank floats r.rank)) rs
      → (acc : Acc F) × (fold_acc none (r ∷ rs) ≡ some acc) × Fuses (r ∷ rs) acc
  unfolding fold_acc first_acc accumulate
  Fuses-other r rs other (all_other last folds l empty score keeps) = (
    last,
    folds,
    record {
      first = r;
      rest = rs;
      group = rw (other, empty) refl;
      evidence = keeps r.hit refl;
      score = score;
      local = l ∙ rw (other, empty) refl;
    },
  )
  Fuses-other r rs other (local_wins last first rest folds l group score same) = (
    last,
    folds,
    record {
      first = first;
      rest = rest;
      group = rw (other, group) refl;
      evidence = same;
      score = score;
      local = l ∙ rw (other, group) refl;
    },
  )

  -- The fold over one or more candidates leaves their fusion.
  pub fold_acc-Fuses :
      (r : Ranked F) (rs : List (Ranked F))
      → (acc : Acc F) × (fold_acc none (r ∷ rs) ≡ some acc) × Fuses (r ∷ rs) acc
  unfolding fold_acc first_acc accumulate
  fold_acc-Fuses r rs = elim (Bool-cases (is_local r.hit.origin)) [
    | inl here ↦
        let onward = from_local (first_acc floats r.hit (reciprocal_rank floats r.rank)) rs here in
        (
          onward.last,
          onward.folds,
          record {
            first = r;
            rest = locals rs;
            group = rw here refl;
            evidence = onward.evidence r.hit refl;
            score = onward.score;
            local = onward.local ∙ rw here refl;
          },
        )
    | inr elsewhere ↦
        Fuses-other r rs elsewhere
          (from_other (first_acc floats r.hit (reciprocal_rank floats r.rank)) rs elsewhere)
  ]
