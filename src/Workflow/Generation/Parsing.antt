-- ===== src/Workflow/Generation/Parsing.antt =====
-- `_parse` of workflow/answer_generation.py: the reading of a model's reply, and the labels under
-- which the prompt shows the evidence.
use prima_next.Base.{
  ℕ, suc, ◌⊎◌, inl, inr, Bool, true, false, ◌||◌, ◌==◌, Option, none, some, List, [], ◌∷◌, ◌++◌,
  is_empty, fresh_keys, if◌then◌else◌,
}
use prima_next.Base.Decimal.{decimal}
use prima_next.Base.Dict.{Dict, lookup}
use prima_next.Base.Text.{Text, codes, text_eq, strip}
use prima_next.Base.Value.{Value, null, bool, str, list, dict, Items, nil, cons, Fields, end, field}
use prima_next.Llm.Provider.{join_names}
use prima_next.Reasoning.{EvidenceItem}

-- The outcome of `_parse`: an answer with the sources that it cites, the model's statement that
-- the evidence does not suffice, or a `ValueError`.
pub data Parsed : Type 0 where
  parsed : Text → List Text → Parsed
  declined : Parsed
  invalid : Text → Parsed

-- `{f"E{index}": item.source_id for index, item in enumerate(evidence, 1)}`, from an index on.
unfoldable pub label_from : ℕ → List EvidenceItem → Dict Text Text
label_from n [] = []
label_from n (i ∷ is) = ((b'E' ∷ decimal n), i.source_id) ∷ label_from (suc n) is

unfoldable pub label_map : List EvidenceItem → Dict Text Text
unfolding label_from
label_map = label_from 1

-- `payload.get(key)` for a text key: `null` where the key is missing.
unfoldable pub get : Text → Fields → Value
get k end = null
get k (field (str j) v fs) = let rest = get k fs in if j == k then v else rest
get k (field _ v fs) = get k fs

-- The labels of `payload.get("evidence", [])`: none where it is no list of texts.
abbrev cons_label : Text → Option (List Text) → Option (List Text)
cons_label t none = none
cons_label t (some ts) = some (t ∷ ts)

unfoldable pub label_items : Items → Option (List Text)
label_items nil = some []
label_items (cons (str t) vs) = cons_label t (label_items vs)
label_items (cons _ vs) = none

abbrev pub has_key : Text → Fields → Bool
has_key k end = false
has_key k (field (str j) v fs) = j == k || has_key k fs
has_key k (field _ v fs) = has_key k fs

labels_of_value : Value → Option (List Text)
unfolding label_items
labels_of_value (list vs) = label_items vs
labels_of_value _ = none

unfoldable pub labels_of : Fields → Option (List Text)
unfolding get labels_of_value
labels_of fs =
    if has_key (codes "evidence") fs then labels_of_value (get (codes "evidence") fs) else some []

-- The labels that the prompt did not show, and the sources of those that it did.
unfoldable pub unknown_labels : Dict Text Text → List Text → List Text
unknown_labels m [] = []
unknown_labels m (l ∷ ls) =
    let rest = unknown_labels m ls in elim (lookup l m) [ none ↦ l ∷ rest | some _ ↦ rest ]

unfoldable pub sources_of : Dict Text Text → List Text → List Text
sources_of m [] = []
sources_of m (l ∷ ls) =
    let rest = sources_of m ls in elim (lookup l m) [ none ↦ rest | some s ↦ s ∷ rest ]

-- `_parse` of a factual answer, after the test that it names its evidence.
unfoldable pub parse_cited : Dict Text Text → Text → Option (List Text) → Parsed
unfolding unknown_labels sources_of
parse_cited m answer none = invalid (codes "LLM evidence labels are invalid.")
parse_cited m answer (some ls) =
    if is_empty (unknown_labels m ls)
    then parsed (strip answer) (fresh_keys [] (sources_of m ls))
    else invalid (codes "LLM cited unknown evidence labels: " ++ join_names (unknown_labels m ls))

unfoldable pub parse_answer : Dict Text Text → Fields → Value → Parsed
unfolding parse_cited labels_of
parse_answer m fs (str a) =
    if is_empty (strip a)
    then invalid (codes "LLM factual answer is empty.")
    else parse_cited m a (labels_of fs)
parse_answer m fs _ = invalid (codes "LLM factual answer is empty.")

unfoldable pub parse_factual : Dict Text Text → (Text ⊎ Value) → Parsed
unfolding parse_answer get
parse_factual m (inl e) = invalid e
parse_factual m (inr (dict fs)) = elim (get (codes "insufficient_information") fs) [
  | bool true ↦ declined
  | bool false ↦ parse_answer m fs (get (codes "answer") fs)
  | _ ↦ invalid (codes "LLM returned an invalid factual answer.")
]
parse_factual m (inr _) = invalid (codes "LLM returned an invalid factual answer.")

-- The test that the answer does not repeat the request.
abbrev pub check_echo : Text → Parsed → Parsed
check_echo request (parsed answer sources) =
    if strip answer == strip request
    then invalid (codes "LLM answer echoed the request.")
    else parsed (strip answer) sources
check_echo request p = p

-- `_parse` of a reply that is stripped already.
unfoldable pub parse : (Text → Text ⊎ Value) → Text → Text → Dict Text Text → Bool → Parsed
unfolding parse_factual
parse loads raw request m factual =
    if is_empty raw
    then invalid (codes "LLM returned an empty response.")
    else check_echo request (if factual then parse_factual m (loads raw) else parsed raw [])
