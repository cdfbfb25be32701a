-- ===== src/Retrieval/Pipeline/Bounded.antt =====
-- Every response is within the limits that the request sets.
use omni_sem.Base.{ℕ, ◌≡◌, ◌≤◌, List, [], Text, codes, length, u32_max, arith}
use omni_sem.Domain.{
  RetrievalMode, RetrievalQuery, RetrievalHit, RetrievalResponse, RetrievalTelemetry, Result,
}
use omni_sem.Freshness.{FileSystem}
use omni_sem.Tokens.{hard_byte_cap, estimate_response_tokens}
use omni_sem.Retrieval.Env.{Floats, Env}
use omni_sem.Retrieval.Pack.{pack_results}
use omni_sem.Retrieval.Pack.Budget.{texts, text_bytes, HasRoom, pack_results-budget}
use omni_sem.Retrieval.Pipeline.{EmbeddingProvider, Channels, PipelineConfig}
use omni_sem.Retrieval.Pipeline.Lexical.{respond, fused_hits, lexical_response}
use omni_sem.Retrieval.Pipeline.Holds.{OkHolds, retrieve-OkHolds}
use omni_sem.Retrieval.Pipeline.Lexical.{effective_mode}
use omni_sem.Retrieval.Pipeline.Modes.{retrieve}

-- A response is within the limit, the token budget and the byte cap, and states its token estimate.
pub record IsBounded {F : Type 0} (request : RetrievalQuery) (response : RetrievalResponse F)
    : Type 0 where
  pub few : length response.results ≤ request.limit
  pub budgeted :
      estimate_response_tokens request.query (texts response.results) ≤ request.token_budget
  pub capped : text_bytes (texts response.results) ≤ hard_byte_cap
  pub stated :
      response.token_estimate ≡ estimate_response_tokens request.query (texts response.results)

module _ {F : Type 0} (request : RetrievalQuery) (small : request.token_budget ≤ u32_max)
    (room : HasRoom request.query request.token_budget) where
  respond-IsBounded :
      (requested mode : RetrievalMode) (kind : Text) (duplicates : ℕ)
      (telemetry : RetrievalTelemetry F) (hits : List (RetrievalHit F)) (warnings : List Text)
      → IsBounded request (
          respond request requested mode kind duplicates telemetry
            (pack_results request.query hits request.limit request.token_budget warnings))
  unfolding respond
  respond-IsBounded requested mode kind duplicates telemetry hits warnings =
      let (few, budgeted, capped, quiet) =
        pack_results-budget request.query hits request.limit request.token_budget warnings small
          room in
      record { few = few; budgeted = budgeted; capped = capped; stated = omega (arith, budgeted) }

-- With a token budget that fits 32 bits and leaves room for the overheads and one token of text,
-- every response of `retrieve`, in each mode and whatever the channels answer, has at most `limit` hits,
-- an estimate within the token budget, texts within the byte cap, and states its own estimate.
pub retrieve-IsBounded :
    {F : Type 0} (env : Env) (floats : Floats F) (fs : FileSystem) (channels : Channels F)
    (config : PipelineConfig) (request : RetrievalQuery)
    (configured : Result (Text × Text) (EmbeddingProvider F))
    → request.token_budget ≤ u32_max
    → HasRoom request.query request.token_budget
    → OkHolds (IsBounded request) (retrieve env floats fs channels config request configured)
unfolding lexical_response respond
retrieve-IsBounded {F} env floats fs channels config request configured small room =
    retrieve-OkHolds env floats fs channels config request (λ hits. Unit {0}) tt
      (λ provider channel ran. tt) (IsBounded request)
      (λ requested parsed candidates semantic warnings telemetry h.
        let fused =
          fused_hits env floats fs channels config request parsed candidates semantic warnings in
        let s =
          respond-IsBounded request small room requested (effective_mode semantic) [] 0 telemetry
            fused.0.hits fused.1 in
        record { few = s.few; budgeted = s.budgeted; capped = s.capped; stated = s.stated })
      (λ channel h.
        respond-IsBounded request small room request.mode RetrievalMode.semantic
          (codes "cosine_similarity") 0 channel.telemetry channel.hits channel.warnings)
      configured
