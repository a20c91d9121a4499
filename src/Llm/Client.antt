-- ===== src/Llm/Client.antt =====
-- llm/llm_client.py: one request with its retries. The clock is a function of the number of the
-- attempt; the sleep between attempts only shows in it.
pub mod Attempts
use prima_next.Base.{
  ℕ, zero, suc, ◌+◌, Bool, true, false, not, ◌==◌, Option, none, some, ◌++◌, if◌then◌else◌,
}
use prima_next.Base.Decimal.{decimal}
use prima_next.Base.Int.{pos_part}
use prima_next.Base.Text.{Text, codes, text_eq, lower}
use prima_next.Llm.{GenerationConfig, LlmRequest, LlmResponse}
use prima_next.Llm.Limiter.{RateLimiter, allow}
use prima_next.Llm.Provider.{Provider, Sent, answers, refuses, breaks, request_error, leaks_secret}

pub record LlmClient : Type 0 where
  pub provider_name : Text
  pub provider : Provider
  pub rate_limiter : RateLimiter
  -- the time at which the n-th request is checked against the limit
  pub clock : ℕ → ℕ

-- How `chat` ends: with a response, or with an exception of the class named.
pub data Reply : Type 0 where
  replied : LlmResponse → Reply
  provider_error runtime_error value_error other_error : Text → Reply

-- The reply, the limiter after it, and the number of requests sent so far.
pub record Chat : Type 0 where
  pub reply : Reply
  pub limiter : RateLimiter
  pub sent : ℕ

abbrev pub finish : Reply → RateLimiter → ℕ → Chat
finish r l n = record { reply = r; limiter = l; sent = n }

-- What one request that was sent leads to; `retry` is the rest of the loop.
abbrev pub after_send : RateLimiter → ℕ → (Text → Chat) → Sent → Chat
after_send l n retry (answers r) =
    finish
      (if leaks_secret r.text
        then value_error (codes "LLM output contains potential secrets or sensitive data")
        else replied r)
      l n
after_send l n retry (refuses e) = retry e
after_send l n retry (breaks e) = finish (other_error e) l n

-- The loop over the attempts that are left, with the last error and the requests sent before.
unfoldable pub attempts : LlmClient → LlmRequest → ℕ → Text → RateLimiter → ℕ → Chat
attempts k r zero last l n =
    finish
      (provider_error (
        k.provider_name
        ++ (codes " request failed after "
            ++ (decimal (pos_part r.generation.retries + 1) ++ (codes " attempt(s): " ++ last)))))
      l n
attempts k r (suc left) last l n =
    let (allowed, l') = allow 1 (k.clock n) l in
    let sent = k.provider.send n r in
    let rest = λ (e : Text). attempts k r left e l' (suc n) in
    if allowed
    then after_send l' (suc n) rest sent
    else finish (runtime_error (codes "Rate limit exceeded")) l' n

-- `chat` with a configuration.
unfoldable pub chat : LlmClient → Text → GenerationConfig → Option Text → Option Text → Chat
unfolding attempts
chat k prompt g system schema =
    let request : LlmRequest = record {
      prompt = prompt;
      generation = g;
      system_prompt = system;
      response_schema = schema;
    } in
    let refused = λ (e : Text). finish (provider_error e) k.rate_limiter 0 in
    if not (lower g.provider == lower k.provider_name)
    then refused (
        codes "Injected client is configured for '"
        ++ (k.provider_name ++ (codes "', not '" ++ (g.provider ++ codes "'."))))
    else elim (request_error k.provider request) [
      | some e ↦ refused e
      | none ↦ attempts k request (suc (pos_part g.retries)) (codes "None") k.rate_limiter 0
    ]
