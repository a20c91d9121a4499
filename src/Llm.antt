-- ===== src/Llm.antt =====
-- llm/generation_config.py and llm/llm_types.py: the settings of a generation, what a provider can
-- do, and the request and response of one model call. Decimal settings are counted in millionths; a
-- schema is the text that stands for it.
pub mod Limiter
pub mod Provider
pub mod Client
use prima_next.Base.{
  ℕ, ◌≡◌, ◌↔◌, Bool, not, ◌||◌, ◌&&◌, Option, none, some, List, Eq, nat_beq, is_empty,
  if◌then◌else◌, arith,
}
use prima_next.Base.Int.{ℤ, pos}
use prima_next.Base.Text.{Text, codes, strip}
use prima_next.Base.Value.{ltb_ℤ}

pub data StructuredOutputMode : Type 0 where
  no_structure json_object json_schema : StructuredOutputMode

pub data FallbackPolicy : Type 0 where
  abstain extractive fail : FallbackPolicy

abbrev pub mode_index : StructuredOutputMode → ℕ
mode_index no_structure = 0
mode_index json_object = 1
mode_index json_schema = 2

abbrev pub mode_beq : StructuredOutputMode → StructuredOutputMode → Bool
mode_beq a b = nat_beq (mode_index a) (mode_index b)

pub mode_beq_iff : (a b : StructuredOutputMode) → (mode_beq a b ≡ Bool.true) ↔ (a ≡ b)
mode_beq_iff a b = ground arith

instance abbrev pub mode_eq : Eq StructuredOutputMode
mode_eq = record { equal = mode_beq; decides = mode_beq_iff }

abbrev pub mode_value : StructuredOutputMode → Text
mode_value no_structure = codes "none"
mode_value json_object = codes "json_object"
mode_value json_schema = codes "json_schema"

pub record GenerationConfig : Type 0 where
  pub model : Text
  pub provider : Text
  pub revision : Option Text
  pub temperature : ℤ
  pub top_p : Option ℤ
  pub top_k : Option ℤ
  pub repeat_penalty : Option ℤ
  pub seed : Option ℤ
  pub max_output_tokens : ℤ
  pub timeout_seconds : ℤ
  pub retries : ℤ
  pub structured_output : StructuredOutputMode
  pub fallback_policy : FallbackPolicy

-- A setting that is given passes the test.
abbrev given : (ℤ → Bool) → Option ℤ → Bool
given test none = Bool.false
given test (some x) = test x

-- `__post_init__`: the error that it raises, none where the settings are accepted.
unfoldable pub config_error : GenerationConfig → Option Text
config_error g =
    if is_empty (strip g.model) || is_empty (strip g.provider)
    then some (codes "Generation model and provider must be configured.")
    else if ltb_ℤ g.temperature (pos 0) || ltb_ℤ (pos 2_000_000) g.temperature
    then some (codes "temperature must be between 0 and 2")
    else if given (λ p. not (ltb_ℤ (pos 0) p) || ltb_ℤ (pos 1_000_000) p) g.top_p
    then some (codes "top_p must be greater than 0 and at most 1")
    else if given (λ k. ltb_ℤ k (pos 1)) g.top_k
    then some (codes "top_k must be positive")
    else if given (λ p. not (ltb_ℤ (pos 0) p)) g.repeat_penalty
    then some (codes "repeat_penalty must be positive")
    else if ltb_ℤ g.max_output_tokens (pos 1)
        || (not (ltb_ℤ (pos 0) g.timeout_seconds) || ltb_ℤ g.retries (pos 0))
    then some (codes "Token limit and timeout must be positive; retries cannot be negative.")
    else none

pub record ProviderCapabilities : Type 0 where
  pub system_prompts : Bool
  pub structured_output : List StructuredOutputMode
  pub token_accounting : Bool
  pub retries : Bool
  pub seed : Bool
  pub supported_fields : List Text

pub record LlmRequest : Type 0 where
  pub prompt : Text
  pub generation : GenerationConfig
  pub system_prompt : Option Text
  pub response_schema : Option Text

pub record LlmResponse : Type 0 where
  pub text : Text
  pub usage : List (Text × ℕ)
  pub provider : Option Text
