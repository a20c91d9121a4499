-- ===== src/Tests/Llm.antt =====
-- A client of a provider that refuses its first request.
use prima_next.Base.{
  ℕ, ◌+◌, ◌*◌, ◌≤◌, ◌≡◌, ◌⊎◌, ◌==◌, nat_eq, true, false, none, List, [], ◌∷◌, if◌then◌else◌, arith,
}
use prima_next.Base.Text.{codes}
use prima_next.Llm.{no_structure}
use prima_next.Llm.Limiter.{new_limiter, allow_all, IsRising}
use prima_next.Llm.Limiter.Rate.{new_limiter-bounds}
use prima_next.Llm.Provider.{Provider, answers, refuses, request_error}
use prima_next.Llm.Client.{LlmClient, Chat, chat}
use prima_next.Llm.Client.Attempts.{chat-IsAnswered, IsAnswered, request_of}
use prima_next.Tests.Fixtures.{demo_generation}

abbrev demo_times : List ℕ
demo_times = 0 ∷ 10 ∷ 31_000_000 ∷ 62_000_000 ∷ []

demo_times-IsRising : IsRising 0 62_000_000 demo_times
demo_times-IsRising = ground arith

new_limiter-bounds_example :
    (allow_all demo_times (new_limiter 2 0)).0 * 60_000_000 ≤ 2 * (60_000_000 + 62_000_000)
new_limiter-bounds_example = new_limiter-bounds 2 0 62_000_000 demo_times demo_times-IsRising

abbrev demo_provider : Provider
demo_provider = record {
  name = codes "local";
  capabilities = record {
    system_prompts = true;
    structured_output = no_structure ∷ [];
    token_accounting = false;
    retries = false;
    seed = false;
    supported_fields = [];
  };
  send = λ n r.
      if n == 0
      then refuses (codes "timeout")
      else answers (record { text = codes "hello"; usage = []; provider = none });
}

abbrev demo_client : LlmClient
demo_client = record {
  provider_name = codes "local";
  provider = demo_provider;
  rate_limiter = new_limiter 60 0;
  clock = λ n. n;
}

abbrev demo_chat : Chat
demo_chat = chat demo_client (codes "hi") demo_generation none none

chat-IsAnswered_example :
    (demo_chat.sent ≤ 2)
    × IsAnswered demo_client
        (request_of (codes "hi") demo_generation none none)
        demo_chat.sent
        demo_chat.reply
    × ((request_error demo_provider (request_of (codes "hi") demo_generation none none) ≡ none)
        ⊎ (demo_chat.sent ≡ 0))
chat-IsAnswered_example = chat-IsAnswered demo_client (codes "hi") demo_generation none none
