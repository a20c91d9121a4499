-- ===== src/Llm/Client/Attempts.antt =====
-- What `LlmClient.chat` sends and returns (llm/llm_client.py).
use prima_next.Base.{
  ◌⊎◌, ℕ, zero, suc, ◌+◌, ◌≤◌, ◌≡◌, refl, not, ◌==◌, false, Option, none, Option-cases, inl, inr,
  if-cases, arith,
}
use prima_next.Base.Int.{pos_part}
use prima_next.Base.Text.{Text, codes, lower, text_eq}
use prima_next.Llm.{GenerationConfig, LlmRequest}
use prima_next.Llm.Limiter.{RateLimiter, allow}
use prima_next.Llm.Provider.{Sent, answers, refuses, breaks, request_error, leaks_secret}
use prima_next.Llm.Client.{LlmClient, Reply, replied, Chat, finish, after_send, attempts, chat}

-- A reply that is a response is what the provider answered to the last request sent, and holds no
-- secret.
abbrev pub IsAnswered : LlmClient → LlmRequest → ℕ → Reply → Type 0
IsAnswered k r sent (replied a) =
    (leaks_secret a.text ≡ false) × ((n : ℕ) × (sent ≡ suc n) × (k.provider.send n r ≡ answers a))
IsAnswered k r sent _ = Unit

abbrev IsRun : LlmClient → LlmRequest → ℕ → Chat → Type 0
IsRun k r bound h = (h.sent ≤ bound) × IsAnswered k r h.sent h.reply

after_send-IsRun :
    (k : LlmClient) (r : LlmRequest) (l : RateLimiter) (n bound : ℕ) (rest : Text → Chat) (s : Sent)
    → k.provider.send n r ≡ s
    → suc n ≤ bound
    → ((e : Text) → IsRun k r bound (rest e))
    → IsRun k r bound (after_send l (suc n) rest s)
after_send-IsRun k r l n bound rest (answers a) e h ih =
    if-cases (λ y. IsRun k r bound (finish y l (suc n))) (leaks_secret a.text) (λ met. (h, tt))
      (λ clean. (h, (clean, (n, refl, e))))
after_send-IsRun k r l n bound rest (refuses x) e h ih = ih x
after_send-IsRun k r l n bound rest (breaks x) e h ih = (h, tt)

attempts-IsRun :
    (k : LlmClient) (r : LlmRequest) (left : ℕ) (last : Text) (l : RateLimiter) (n : ℕ)
    → IsRun k r (n + left) (attempts k r left last l n)
unfolding attempts
attempts-IsRun k r zero last l n = (omega arith, tt)
attempts-IsRun k r (suc left) last l n =
    let l' = (allow 1 (k.clock n) l).1 in
    if-cases (IsRun k r (n + suc left)) (allow 1 (k.clock n) l).0
      (λ met.
        after_send-IsRun k r l' n (n + suc left) _ (k.provider.send n r) refl (omega arith)
          (λ e. ground (arith, attempts-IsRun k r left e l' (suc n))))
      (λ other. (omega arith, tt))

-- The request that `chat` makes of its arguments.
abbrev pub request_of : Text → GenerationConfig → Option Text → Option Text → LlmRequest
request_of prompt g system schema = record {
  prompt = prompt;
  generation = g;
  system_prompt = system;
  response_schema = schema;
}

-- A response comes from the provider that the client is configured for, which has accepted the
-- request; it answers the last request sent, and its text matches none of the patterns for
-- secrets. At most one request more is sent than the configuration has retries, and none where the
-- provider does not accept the request.
pub chat-IsAnswered :
    (k : LlmClient) (prompt : Text) (g : GenerationConfig) (system schema : Option Text)
    → let h = chat k prompt g system schema in
      let r = request_of prompt g system schema in
      (h.sent ≤ pos_part g.retries + 1)
      × IsAnswered k r h.sent h.reply
      × ((request_error k.provider r ≡ none) ⊎ (h.sent ≡ 0))
unfolding chat
chat-IsAnswered k prompt g system schema =
    let r = request_of prompt g system schema in
    let run = attempts-IsRun k r (suc (pos_part g.retries)) (codes "None") k.rate_limiter 0 in
    if-cases {A = Chat}
      (λ h.
        (h.sent ≤ pos_part g.retries + 1)
        × IsAnswered k r h.sent h.reply
        × ((request_error k.provider r ≡ none) ⊎ (h.sent ≡ 0)))
      (not (lower g.provider == lower k.provider_name)) (λ met. (omega arith, tt, inr refl))
      (λ other. elim (Option-cases (request_error k.provider r)) [
        | inl accepted ↦ rw (accepted, chat) (omega (arith, run.0), run.1, inl refl)
        | inr (x, refused) ↦ rw (refused, chat) (omega arith, tt, inr refl)
      ])
