-- ===== src/Retrieval/Pipeline/Hidden.antt =====
-- What `retrieve_lexical` loses by suppressing duplicates before it filters.
use omni_sem.Base.{
  ℕ, ◌≡◌, ◌≢◌, refl, sym, subst, ◌⊎◌, inl, inr, false, List, [], ◌∷◌, ◌++◌, Text, contains,
  contains-cons_false, Bool-cases, In, All, All-In, All-of_In, nat_eq, string_eq,
  contains-cons_of_ne, All-imp,
}
use omni_sem.Domain.{RetrievalQuery}
use omni_sem.Freshness.{FileSystem}
use omni_sem.Retrieval.Env.{Floats, Env}
use omni_sem.Retrieval.Candidates.{RawCandidate, suppress_from, suppress_duplicates}
use omni_sem.Retrieval.Candidates.Distinct.{suppress_from-IsNew}
use omni_sem.Retrieval.Sensitivity.{load_sensitivity_sets, filter_sensitivity}
use omni_sem.Retrieval.Sensitivity.Filter.{Unrestricted, filter_sensitivity_iff}
use omni_sem.Retrieval.Pipeline.{Channels, PipelineConfig}
use omni_sem.Retrieval.Pipeline.Lexical.{allowed_candidates}

module _ {F : Type 0} (c : RawCandidate F) where
  -- Another text, or the candidate itself.
  abbrev Apart : RawCandidate F → Type 0
  Apart k = (k.text_hash ≢ c.text_hash) ⊎ (k ≡ c)

  -- Before the candidate there is neither its segment nor its text.
  abbrev pub Before : RawCandidate F → Type 0
  Before e = (e.segment_id ≢ c.segment_id) × (e.text_hash ≢ c.text_hash)

  suppress_from-Apart :
      (segments : List ℕ) (hashes : List Text) (earlier later : List (RawCandidate F))
      → contains segments c.segment_id ≡ false
      → contains hashes c.text_hash ≡ false
      → All Before earlier
      → All Apart (suppress_from segments hashes (earlier ++ c ∷ later))
  unfolding suppress_from
  suppress_from-Apart segments hashes [] later new_segment new_text h =
      let rest = suppress_from (c.segment_id ∷ segments) (c.text_hash ∷ hashes) later in
      rw (new_segment, new_text)
        (
          inr refl,
          All-imp (λ k new. inl (contains-cons_false c.text_hash hashes k.text_hash new.1).1) rest
              (suppress_from-IsNew (c.segment_id ∷ segments) (c.text_hash ∷ hashes) later),
        )
  suppress_from-Apart segments hashes (e ∷ earlier) later new_segment new_text ((other, apart), h) =
      elim (Bool-cases (contains segments e.segment_id)) [
        | inl seen ↦
            rw seen (suppress_from-Apart segments hashes earlier later new_segment new_text h)
        | inr unseen ↦ elim (Bool-cases (contains hashes e.text_hash)) [
          | inl known ↦
              rw (unseen, known)
                (suppress_from-Apart (e.segment_id ∷ segments) hashes earlier later
                  (contains-cons_of_ne e.segment_id segments c.segment_id new_segment
                    (λ p. other (sym p)))
                  new_text h)
          | inr fresh ↦
              rw (unseen, fresh)
                (
                  inl apart,
                  suppress_from-Apart (e.segment_id ∷ segments) (e.text_hash ∷ hashes) earlier later
                      (contains-cons_of_ne e.segment_id segments c.segment_id new_segment
                        (λ p. other (sym p)))
                      (contains-cons_of_ne e.text_hash hashes c.text_hash new_text
                        (λ p. apart (sym p)))
                      h,
                )
        ]
      ]

-- Without opting in, a restricted candidate takes every candidate with its text along, when no earlier
-- candidate has its segment or its text: the duplicates are dropped before the restricted one is
-- filtered out, so no candidate with that text is left, whether or not another one may be shown.
pub hidden_copy_hides_text :
    {F : Type 0} (env : Env) (floats : Floats F) (fs : FileSystem) (channels : Channels F)
    (config : PipelineConfig) (request : RetrievalQuery) (c : RawCandidate F)
    (earlier later : List (RawCandidate F))
    → request.include_sensitive ≡ false
    → All (Before c) earlier
    → ¬ Unrestricted env (load_sensitivity_sets env config.roots) c
    → All
        (λ (k : RawCandidate F). k.text_hash ≢ c.text_hash)
        (allowed_candidates env floats fs channels config request (earlier ++ c ∷ later))
unfolding allowed_candidates suppress_duplicates
hidden_copy_hides_text {F} env floats fs channels config request c earlier later asks before
      hidden =
    let index = load_sensitivity_sets env config.roots in
    let kept = suppress_duplicates (earlier ++ c ∷ later) in
    let apart = suppress_from-Apart c [] [] earlier later refl refl before in
    All-of_In (λ (k : RawCandidate F). k.text_hash ≢ c.text_hash)
      (filter_sensitivity env kept index request.include_sensitive)
      (λ k m.
        let m' = subst (λ b. In k (filter_sensitivity env kept index b)) asks m in
        let (stays, open_to) = (filter_sensitivity_iff env index kept k).0.0 m' in
        elim (All-In (Apart c) apart stays) [
          | inl differs ↦ differs
          | inr same ↦ absurd (hidden (subst (Unrestricted env index) same open_to))
        ])
