-- ===== src/Retrieval/Candidates.antt =====
-- The lexical candidates of crates/omnisem-core/src/retrieval.rs and `suppress_duplicates`. A hash
-- set is the list of what was inserted.
pub mod Distinct
mod Examples
use omni_sem.Base.{
  ℕ, Bool, true, false, Option, List, [], ◌∷◌, Text, if◌then◌else◌, Eq, nat_eq, string_eq, contains,
}
use omni_sem.Domain.{Timestamp, FilePath, SupportedFileType}
use omni_sem.Retrieval.Env.{Floats}

pub record RawCandidate (F : Type 0) : Type 0 where
  pub segment_id : ℕ
  pub revision_id : ℕ
  pub source_file_id : ℕ
  pub root_id : ℕ
  pub relative_path : FilePath
  pub anchor : Text
  pub text : Text
  pub text_hash : Text
  pub file_type : SupportedFileType
  pub root_path : FilePath
  pub modified_at : Option Timestamp
  pub raw_bm25 : F
  pub highlighted : Text

-- FTS5's BM25 is lower-is-better; the public score is its negation.
pub public_score_from_bm25 : {F : Type 0} → Floats F → F → F
public_score_from_bm25 floats raw_bm25 =
    if floats.is_finite raw_bm25 then floats.neg raw_bm25 else floats.neg_infinity

module _ {F : Type 0} where
  unfoldable pub suppress_from : List ℕ → List Text → List (RawCandidate F) → List (RawCandidate F)
  suppress_from seen_segments seen_hashes [] = []
  suppress_from seen_segments seen_hashes (c ∷ candidates) =
      let skip = suppress_from seen_segments seen_hashes candidates in
      let drop = suppress_from (c.segment_id ∷ seen_segments) seen_hashes candidates in
      let keep =
        c ∷ suppress_from (c.segment_id ∷ seen_segments) (c.text_hash ∷ seen_hashes) candidates in
      if contains seen_segments c.segment_id
      then skip
      else if contains seen_hashes c.text_hash
      then drop
      else keep

  unfoldable pub suppress_duplicates : List (RawCandidate F) → List (RawCandidate F)
  unfolding suppress_from
  suppress_duplicates candidates = suppress_from [] [] candidates
