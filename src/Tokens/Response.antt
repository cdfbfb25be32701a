-- ===== src/Tokens/Response.antt =====
-- The estimate of a response, text by text, and how it grows with a text.
use omni_sem.Base.{
  ℕ, ◌+◌, ◌*◌, ◌≤◌, ◌≡◌, ◌↔◌, refl, List, [], ◌∷◌, ◌++◌, Text, length, arith, saturating_add,
}
use omni_sem.Tokens.{
  result_overhead_tokens, response_overhead_tokens, estimate, response_loop,
  estimate_response_tokens,
}

-- `n` tokens cover `3 * n` characters, and no more.
pub estimate_iff : (t : Text) (n : ℕ) → (estimate t ≤ n) ↔ (length t ≤ 3 * n)
unfolding estimate
estimate_iff t n = (λ h. ground arith, λ h. ground arith)

pub response-append :
    (query : Text) (ts : List Text) (t : Text)
    → estimate_response_tokens query (ts ++ t ∷ [])
      ≡ saturating_add (estimate_response_tokens query ts) (result_overhead_tokens + estimate t)
unfolding estimate_response_tokens
response-append query ts t = loop (response_overhead_tokens + estimate query) ts
  where
    loop :
        (total : ℕ) (us : List Text)
        → response_loop total (us ++ t ∷ [])
          ≡ saturating_add (response_loop total us) (result_overhead_tokens + estimate t)
    loop total [] = refl
    loop total (u ∷ us) = loop (saturating_add total (result_overhead_tokens + estimate u)) us

pub response-nil :
    (query : Text) → estimate_response_tokens query [] ≡ response_overhead_tokens + estimate query
unfolding estimate_response_tokens
response-nil query = refl
