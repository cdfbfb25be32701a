-- ===== src/Retrieval/Fusion.antt =====
-- `rrf_merge` and `merge_signals` of crates/omnisem-core/src/retrieval.rs: reciprocal rank fusion.
-- The hash map is an association list in the order of insertion; that order is one of those in
-- which the map may be read, and the sort that follows ends by comparing segments.
pub mod Stream
pub mod Reference
pub mod Entries
pub mod Merged
pub mod Scopes
mod Examples
use omni_sem.Base.{
  ℕ, ◌+◌, ◌-◌, Ordering, Bool, true, false, Option, none, some, List, [], ◌∷◌, ◌++◌, map, Text, leb,
  if◌then◌else◌, length, to_u32, text_eq, compare, compare_text, then_with, reverse_order, sort_by,
  is_empty,
}
use omni_sem.Domain.{
  FilePath, Component, prefix, root_dir, cur_dir, parent_dir, normal, RetrievalHit,
  RetrievalSignals, MatchExplanation, EvidenceOrigin, local_index, snapshot, ExplanationKind,
  lexical_term_overlap, semantic_neighbor, structural_expansion,
}
use omni_sem.Retrieval.Env.{Floats}

abbrev pub max_fusion_candidates : ℕ
max_fusion_candidates = 768

pub is_local : EvidenceOrigin → Bool
is_local local_index = true
is_local (snapshot id root) = false

-- `Option::or`: what is there already stays.
abbrev pub or_else : {A : Type 0} → Option A → Option A → Option A
or_else (some a) other = some a
or_else none other = other

is_neighbor : ExplanationKind → Bool
is_neighbor semantic_neighbor = true
is_neighbor lexical_term_overlap = false
is_neighbor structural_expansion = false

-- The order of `Component` is that of its constructors, then that of their texts.
component_rank : Component → ℕ
component_rank (prefix s) = 0
component_rank root_dir = 1
component_rank cur_dir = 2
component_rank parent_dir = 3
component_rank (normal s) = 4

compare_component : Component → Component → Ordering
compare_component (prefix s) (prefix t) = compare_text s t
compare_component (normal s) (normal t) = compare_text s t
compare_component c d = compare (component_rank c) (component_rank d)

pub compare_path : FilePath → FilePath → Ordering
compare_path [] [] = Ordering.eq
compare_path [] (d ∷ q) = Ordering.lt
compare_path (c ∷ p) [] = Ordering.gt
compare_path (c ∷ p) (d ∷ q) = then_with (compare_component c d) (compare_path p q)

pub record Acc (F : Type 0) : Type 0 where
  pub hit : RetrievalHit F
  pub score : F
  pub local : Bool

pub record FusionReport (F : Type 0) : Type 0 where
  pub hits : List (RetrievalHit F)
  pub snapshot_candidates : ℕ
  pub semantic_candidates : ℕ
  pub admitted : ℕ
  pub unique : ℕ
  pub duplicates : ℕ

pub merge_explanation : MatchExplanation → MatchExplanation → MatchExplanation
merge_explanation target incoming =
    if is_neighbor incoming.explanation_kind
    then if is_empty target.matched_terms then incoming else target
    else target

module _ {F : Type 0} where
  -- `FusionReport::unfused`.
  unfoldable pub unfused : List (RetrievalHit F) → FusionReport F
  unfused hits = record {
    hits = hits;
    snapshot_candidates = 0;
    semantic_candidates = 0;
    admitted = 0;
    unique = 0;
    duplicates = 0;
  }

  pub merge_signals : RetrievalHit F → RetrievalHit F → RetrievalHit F
  merge_signals target incoming =
      let s = target.signals in
      let t = incoming.signals in
      record target {
        signals = record s {
          raw_bm25 = or_else s.raw_bm25 t.raw_bm25;
          cosine_similarity = or_else s.cosine_similarity t.cosine_similarity;
          semantic_rank = or_else s.semantic_rank t.semantic_rank;
          lexical_rank = or_else s.lexical_rank t.lexical_rank;
          embedding_space_id = or_else s.embedding_space_id t.embedding_space_id;
        };
        explanation = merge_explanation target.explanation incoming.explanation;
      }

  pub lookup : Text → List (Text × Acc F) → Option (Acc F)
  lookup key [] = none
  lookup key ((k, acc) ∷ best) = if text_eq k key then some acc else lookup key best

  -- Replaces the entry of a key, or adds it at the end.
  pub set_entry : Text → Acc F → List (Text × Acc F) → List (Text × Acc F)
  set_entry key acc [] = (key, acc) ∷ []
  set_entry key acc ((k, old) ∷ best) =
      if text_eq k key then (k, acc) ∷ best else (k, old) ∷ set_entry key acc best

module _ {F : Type 0} (floats : Floats F) where
  abbrev pub rrf_k : F
  rrf_k = floats.of_nat 60

  -- `1.0 / (RRF_K + rank_f + 1.0)`
  pub reciprocal_rank : ℕ → F
  reciprocal_rank rank =
      floats.div (floats.of_nat 1)
        (floats.add (floats.add rrf_k (floats.of_nat rank)) (floats.of_nat 1))

  -- `hit` with its first contribution.
  pub first_acc : RetrievalHit F → F → Acc F
  first_acc hit contrib =
      let s = hit.signals in
      record {
        hit = record hit {
          signals = record s { federation_score = some contrib };
          score = contrib;
        };
        score = contrib;
        local = is_local hit.origin;
      }

  -- What becomes of the entry of a hit's text hash.
  pub accumulate : Option (Acc F) → ℕ → RetrievalHit F → Acc F
  accumulate none rank hit = first_acc hit (reciprocal_rank rank)
  accumulate (some existing) rank hit =
      let contrib = reciprocal_rank rank in
      let local = is_local hit.origin in
      if existing.local
      then (if local
          then record existing {
            score = floats.add existing.score contrib;
            hit = merge_signals existing.hit hit;
          }
          else existing)
      else if local
      then first_acc hit contrib
      else record existing { score = floats.add existing.score contrib }

  pub merge_hit : List (Text × Acc F) → ℕ → RetrievalHit F → List (Text × Acc F)
  merge_hit best rank hit =
      set_entry hit.text_hash (accumulate (lookup hit.text_hash best) rank hit) best

  -- One list; the number of admitted candidates is carried on to the next.
  pub merge_list : List (Text × Acc F) → ℕ → ℕ → List (RetrievalHit F) → List (Text × Acc F) × ℕ
  merge_list best admitted rank [] = (best, admitted)
  merge_list best admitted rank (hit ∷ hits) =
      let rest = merge_list (merge_hit best rank hit) (admitted + 1) (rank + 1) hits in
      if leb max_fusion_candidates admitted then (best, admitted) else rest

  pub merge_lists : List (Text × Acc F) → ℕ → List (List (RetrievalHit F)) → List (Text × Acc F) × ℕ
  merge_lists best admitted [] = (best, admitted)
  merge_lists best admitted (list ∷ lists) =
      let (best', admitted') = merge_list best admitted 0 list in merge_lists best' admitted' lists

  score_order : F → F → Ordering
  score_order a b = elim (floats.partial_cmp b a) [ none ↦ Ordering.eq | some o ↦ o ]

  pub compare_acc : Acc F → Acc F → Ordering
  compare_acc a b = then_with (score_order a.score b.score) (
      then_with (compare_path a.hit.relative_path b.hit.relative_path) (
        then_with (compare_text a.hit.anchor b.hit.anchor)
          (compare a.hit.segment_id b.hit.segment_id)))

  pub finish : Acc F → RetrievalHit F
  finish acc =
      let hit = acc.hit in
      let s = hit.signals in
      record hit {
        signals = record s { federation_score = some acc.score; fusion_score = some acc.score };
        score = acc.score;
      }

  pub rrf_merge : List (List (RetrievalHit F)) → FusionReport F
  rrf_merge lists =
      let (best, admitted) = merge_lists [] 0 lists in
      let hits = map finish (sort_by compare_acc (map (λ e. e.1) best)) in
      let unique = to_u32 (length hits) in
      record {
        hits = hits;
        snapshot_candidates = 0;
        semantic_candidates = 0;
        admitted = to_u32 admitted;
        unique = unique;
        duplicates = to_u32 admitted - unique;
      }
