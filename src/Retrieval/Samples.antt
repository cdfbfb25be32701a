-- ===== src/Retrieval/Samples.antt =====
-- Concrete data for the examples: numbers for the floating-point values, an environment with plain
-- ASCII rules, and a few hits and candidates.
use omni_sem.Base.{
  leb, ℕ, ◌+◌, ◌/◌, ◌*◌, compare, true, false, none, some, [], ◌∷◌, Text, codes, contains, ◌==◌,
  string_eq,
}
use omni_sem.Domain.{normal, markdown, RetrievalHit, EvidenceOrigin, current, lexical_term_overlap}
use omni_sem.Retrieval.Env.{Floats, Env}
use omni_sem.Retrieval.Candidates.{RawCandidate}

abbrev pub numbers : Floats ℕ
numbers = record {
  zero = 0;
  neg = λ x. x;
  add = λ x y. x + y;
  neg_infinity = 0;
  is_finite = λ x. true;
  div = λ x y. 6_100 * x / y;
  of_nat = λ n. n;
  widen = λ x. x;
  narrow = λ x. x;
  mul = λ x y. x * y;
  abs = λ x. x;
  clamp_unit = λ x. x;
  le = λ x y. leb x y;
  epsilon = 0;
  norm_tolerance = 9;
  from_le_bytes = λ a b c d. a;
  partial_cmp = λ x y. some (compare x y);
}

-- A glob here is a path that matches itself.
abbrev pub ascii : Env
ascii = record {
  to_lowercase = λ t. t;
  is_whitespace = λ c. c == 32;
  is_control = λ c. c == 7;
  glob_parses = λ pattern. true;
  glob_build = λ patterns. some (λ path. contains patterns path);
  show_id = λ id. id ∷ [];
}

abbrev pub sample_hit : ℕ → Text → Text → EvidenceOrigin → RetrievalHit ℕ
sample_hit id text hash origin = record {
  segment_id = id;
  revision_id = 1;
  source_file_id = 1;
  root_id = 1;
  relative_path = normal (codes "a.md") ∷ [];
  file_type = markdown;
  anchor = codes "line:1";
  text = text;
  text_hash = hash;
  score = 0;
  signals = record {
    channel = codes "lexical";
    raw_bm25 = none;
    public_score = 0;
    federation_score = none;
    lexical_rank = some id;
    semantic_rank = none;
    cosine_similarity = none;
    fusion_score = none;
    embedding_space_id = none;
  };
  explanation = record {
    matched_terms = [];
    matched_excerpt = none;
    explanation_kind = lexical_term_overlap;
  };
  freshness = current;
  sensitivity_scope = none;
  token_estimate = 1;
  truncated = false;
  origin = origin;
}

abbrev pub sample_candidate : ℕ → Text → Text → RawCandidate ℕ
sample_candidate id name hash = record {
  segment_id = id;
  revision_id = 1;
  source_file_id = id;
  root_id = 1;
  relative_path = normal name ∷ [];
  anchor = codes "line:1";
  text = codes "text";
  text_hash = hash;
  file_type = markdown;
  root_path = [];
  modified_at = none;
  raw_bm25 = id;
  highlighted = [];
}
