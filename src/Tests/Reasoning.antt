-- ===== src/Tests/Reasoning.antt =====
-- A search whose evidence never suffices and whose needs go on for ever.
use prima_next.Base.{length, ◌≤◌, ◌≡◌, refl, true, false, none, some, [], ◌∷◌, max, arith}
use prima_next.Base.Text.{codes, lower, join_split, strip}
use prima_next.Reasoning.{
  task_route, adaptive_route, normalise_text, integrate_all, ReasoningRequest, ReasoningBudget,
  adaptive, need_more_evidence, new_evidence, RetrievalResponse, integrate,
}
use prima_next.Reasoning.Controller.{ReasoningController, ReasoningResult, answer, responds}
use prima_next.Reasoning.Termination.{answer-IsWithin, IsWithin}
use prima_next.Reasoning.Abstention.{answer-IsSilent, IsSilent}
use prima_next.Reasoning.Evidence.{integrate-IsCollected, IsCollected}

abbrev demo_budget : ReasoningBudget
demo_budget = record {
  max_hops = 3;
  max_retrieval_calls = 2;
  max_llm_calls = 4;
  max_documents = 12;
  max_context_tokens = 1600;
  time_budget = 15_000_000;
  no_progress_limit = 1;
  max_reflection_interventions = 1;
  reflection_confidence_threshold = 600_000;
}

abbrev demo_request : ReasoningRequest
demo_request = record { question = codes "who wrote it"; mode = adaptive; budget = demo_budget }

-- Two results, of which the second repeats the text of the first.
abbrev demo_response : RetrievalResponse
demo_response = record {
  results =
      (record { id = codes "n1"; content = codes "Ada wrote it."; evidence_eligible = true })
      ∷ (record { id = codes "n2"; content = codes "ada wrote it"; evidence_eligible = true })
      ∷ [];
  confidence = 500_000;
}

abbrev demo_controller : ReasoningController
demo_controller = record {
  retrieve = λ s q. responds demo_response;
  synthesize = λ q items. record { answer = codes "Ada"; llm_used = true; errors = [] };
  verify = λ s. record { status = need_more_evidence; answerable = false };
  next_need = λ s. some (codes "Ada");
  advisor = none;
  elapsed = λ n. 0;
}

demo_fuel : max 1 demo_budget.max_hops ≤ 3
demo_fuel = ground arith

answer-IsWithin_example :
    (x : ReasoningResult) × (answer 3 demo_controller demo_request ≡ some x)
    × IsWithin demo_budget x.state
answer-IsWithin_example = answer-IsWithin 3 demo_controller demo_request demo_fuel

demo-IsCollected : IsCollected 12 []
demo-IsCollected = record { distinct_sources = tt; distinct_texts = tt; bounded = ground arith }

integrate-IsCollected_example :
    IsCollected 12
      (integrate 0 (codes "who wrote it") demo_response (new_evidence demo_request)).evidence_items
integrate-IsCollected_example =
    integrate-IsCollected 0 (codes "who wrote it") demo_response (new_evidence demo_request)
      demo-IsCollected

abbrev demo_answer :
    (x : ReasoningResult) × (answer 3 demo_controller demo_request ≡ some x)
    × IsWithin demo_budget x.state
demo_answer = answer-IsWithin 3 demo_controller demo_request demo_fuel

demo_route : task_route demo_request.mode demo_request.question ≡ adaptive_route
unfolding task_route lower strip
demo_route = refl

answer-IsSilent_example : IsSilent demo_answer.0
answer-IsSilent_example =
    answer-IsSilent 3 demo_controller demo_request (λ s. refl) demo_route demo_answer.1

-- The second of the two texts repeats the first.
demo_integrated :
    length
      (integrate 0 (codes "who wrote it") demo_response (new_evidence demo_request)).evidence_items
    ≡ 1
unfolding integrate integrate_all normalise_text lower join_split
demo_integrated = refl
