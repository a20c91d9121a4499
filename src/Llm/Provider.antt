-- ===== src/Llm/Provider.antt =====
-- llm/provider.py and security/output_validator.py: the fields that a provider accepts, and the
-- check of a model's output for secrets. Sending a request is an argument.
use prima_next.Base.{
  ℕ, Bool, false, not, ◌&&◌, ◌==◌, Option, none, some, List, [], ◌∷◌, ◌++◌, any, elem, is_none,
  is_empty, filter_by, map, if◌then◌else◌,
}
use prima_next.Base.Text.{Text, codes, text_eq, lower, infix_of}
use prima_next.Llm.{
  json_schema, mode_eq, mode_value, GenerationConfig, ProviderCapabilities, LlmRequest, LlmResponse,
}

-- What one `send` does: a response, a `ProviderError`, or another exception.
pub data Sent : Type 0 where
  answers : LlmResponse → Sent
  refuses : Text → Sent
  breaks : Text → Sent

pub record Provider : Type 0 where
  pub name : Text
  pub capabilities : ProviderCapabilities
  -- by the number of requests sent before
  pub send : ℕ → LlmRequest → Sent

-- `", ".join(names)`
abbrev pub join_names : List Text → Text
join_names [] = []
join_names (n ∷ []) = n
join_names (n ∷ (m ∷ ns)) = n ++ (codes ", " ++ join_names (m ∷ ns))

-- A field of the configuration, by its name and whether it is set.
abbrev pub optional_fields : GenerationConfig → List (Text × Bool)
optional_fields g =
    (codes "top_p", not (is_none g.top_p))
    ∷ (codes "top_k", not (is_none g.top_k))
    ∷ (codes "repeat_penalty", not (is_none g.repeat_penalty))
    ∷ (codes "seed", not (is_none g.seed))
    ∷ []

abbrev pub unsupported : ProviderCapabilities → GenerationConfig → List Text
unsupported c g =
    map (λ f. f.0) (filter_by (λ f. f.1 && not (elem f.0 c.supported_fields)) (optional_fields g))

-- `if text` on an optional text: it is given and not empty.
abbrev pub is_set : Option Text → Bool
is_set none = false
is_set (some t) = not (is_empty t)

-- `Provider.validate`: the error that it raises, none where the request is accepted.
unfoldable pub request_error : Provider → LlmRequest → Option Text
request_error p r =
    let g = r.generation in
    let c = p.capabilities in
    if is_set r.system_prompt && not c.system_prompts
    then some (p.name ++ codes " does not support system prompts")
    else if not (elem g.structured_output c.structured_output)
    then some (
        p.name
        ++ (codes " does not support structured output mode '"
            ++ (mode_value g.structured_output ++ codes "'")))
    else if is_set r.response_schema && not (g.structured_output == json_schema)
    then some (codes "A response schema requires structured_output='json_schema'.")
    else if is_empty (unsupported c g)
    then none
    else some
        (p.name ++ (codes " does not support generation fields: " ++ join_names (unsupported c g)))

-- The alternatives of `_SENSITIVE_PATTERNS`, which ignores case.
abbrev pub secret_patterns : List Text
secret_patterns =
    codes "apikey"
    ∷ codes "api_key"
    ∷ codes "api-key"
    ∷ codes "secret"
    ∷ codes "password"
    ∷ codes "private key"
    ∷ codes "ssh-rsa"
    ∷ codes "begin rsa private key"
    ∷ codes "begin private key"
    ∷ []

-- Whether `validate_output` raises.
unfoldable pub leaks_secret : Text → Bool
leaks_secret t = not (is_empty t) && any (λ p. infix_of p (lower t)) secret_patterns
