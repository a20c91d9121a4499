-- ===== src/Workflow/Generation/Sources.antt =====
-- What an answer cites, and when the model is called (workflow/answer_generation.py).
use prima_next.Base.{
  ℕ, suc, ◌≡◌, ◌≢◌, ◌⊎◌, inl, inr, Bool, true, false, Option, none, some, List, [], ◌∷◌, All, elem,
  IsNodup, map, is_empty, if-cases, arith, ◌==◌, if◌then◌else◌,
}
use prima_next.Base.Dict.{Dict, lookup}
use prima_next.Base.Keys.{Holds, lookup-Holds, fresh_keys-All, fresh_keys-IsNodup}
use prima_next.Base.Text.{Text, codes, text_eq, text_beq_iff, strip}
use prima_next.Base.Value.{Value, Fields, bool, str, dict}
use prima_next.Reasoning.{EvidenceItem}
use prima_next.Workflow.Generation.Parsing.{
  Parsed, parsed, declined, invalid, label_from, label_map, unknown_labels, sources_of, parse_cited,
  parse_answer, parse_factual, check_echo, parse, labels_of, get,
}

-- The sources of the evidence.
abbrev pub source_ids : List EvidenceItem → List Text
source_ids = map (λ i. i.source_id)

abbrev pub IsSource : List EvidenceItem → Text → Type 0
IsSource is s = elem s (source_ids is) ≡ true

label_from-sources :
    (ids : List Text) (n : ℕ) (is : List EvidenceItem)
    → All (λ s. elem s ids ≡ true) (source_ids is)
    → All (λ p. elem p.1 ids ≡ true) (label_from n is)
unfolding label_from
label_from-sources ids n [] h = tt
label_from-sources ids n (i ∷ is) h = (h.0, label_from-sources ids (suc n) is h.1)

elem-later :
    (x : Text) (ids ys : List Text)
    → All (λ s. elem s ids ≡ true) ys
    → All (λ s. elem s (x ∷ ids) ≡ true) ys
elem-later x ids [] h = tt
elem-later x ids (y ∷ ys) h = (ground arith, elem-later x ids ys h.1)

elem_self : (ids : List Text) → All (λ s. elem s ids ≡ true) ids
elem_self [] = tt
elem_self (x ∷ ids) = (ground (arith, text_beq_iff x x), elem-later x ids ids (elem_self ids))

cons_source :
    (P : Text → Type 0) (o : Option Text) (rest : List Text)
    → Holds P o
    → All P rest
    → All P (elim o [ none ↦ rest | some s ↦ s ∷ rest ])
cons_source P none rest h k = k
cons_source P (some s) rest h k = (h, k)

sources_of-All :
    (P : Text → Type 0) (m : Dict Text Text) (ls : List Text)
    → All (λ p. P p.1) m
    → All P (sources_of m ls)
unfolding sources_of
sources_of-All P m [] h = tt
sources_of-All P m (l ∷ ls) h =
    cons_source P (lookup l m) (sources_of m ls) (lookup-Holds P l m h) (sources_of-All P m ls h)

-- A reply that is read as an answer cites only known sources, each once.
abbrev pub IsCiting : (Text → Type 0) → Parsed → Type 0
IsCiting P (parsed a ss) = All P ss × IsNodup ss
IsCiting P declined = Unit
IsCiting P (invalid e) = Unit

module _ (P : Text → Type 0) (m : Dict Text Text) (known : All (λ p. P p.1) m) where
  parse_cited-IsCiting : (a : Text) (ls : Option (List Text)) → IsCiting P (parse_cited m a ls)
  unfolding parse_cited
  parse_cited-IsCiting a none = tt
  parse_cited-IsCiting a (some ls) =
      if-cases (IsCiting P) (is_empty (unknown_labels m ls))
        (λ met. (
          fresh_keys-All P [] (sources_of m ls) (sources_of-All P m ls known),
          fresh_keys-IsNodup [] (sources_of m ls),
        ))
        (λ other. tt)

  parse_answer-IsCiting : (fs : Fields) (v : Value) → IsCiting P (parse_answer m fs v)
  unfolding parse_answer
  parse_answer-IsCiting fs (str a) =
      if-cases (IsCiting P) (is_empty (strip a)) (λ met. tt)
        (λ other. parse_cited-IsCiting a (labels_of fs))
  parse_answer-IsCiting fs _ = tt

  decided-IsCiting :
      (fs : Fields) (v : Value)
      → IsCiting P (elim v [
        | bool true ↦ declined
        | bool false ↦ parse_answer m fs (get (codes "answer") fs)
        | _ ↦ invalid (codes "LLM returned an invalid factual answer.")
      ])
  decided-IsCiting fs (bool true) = tt
  decided-IsCiting fs (bool false) = parse_answer-IsCiting fs (get (codes "answer") fs)
  decided-IsCiting fs _ = tt

  parse_factual-IsCiting : (o : Text ⊎ Value) → IsCiting P (parse_factual m o)
  unfolding parse_factual
  parse_factual-IsCiting (inl e) = tt
  parse_factual-IsCiting (inr (dict fs)) =
      decided-IsCiting fs (get (codes "insufficient_information") fs)
  parse_factual-IsCiting (inr _) = tt

  -- What is read as an answer cites known sources, each once, and does not repeat the request.
  abbrev pub IsRead : Text → Parsed → Type 0
  IsRead request (parsed a ss) = (All P ss × IsNodup ss) × (a ≢ strip request)
  IsRead request declined = Unit
  IsRead request (invalid e) = Unit

  check_echo-IsRead :
      (request : Text) (p : Parsed) → IsCiting P p → IsRead request (check_echo request p)
  check_echo-IsRead request (parsed a ss) h =
      if-cases (IsRead request) (strip a == strip request) (λ met. tt)
        (λ other. (h, λ same. ground (arith, text_beq_iff (strip a) (strip request))))
  check_echo-IsRead request declined h = tt
  check_echo-IsRead request (invalid e) h = tt

  pub parse-IsRead :
      (loads : Text → Text ⊎ Value) (raw request : Text) (factual : Bool)
      → IsRead request (parse loads raw request m factual)
  unfolding parse
  parse-IsRead loads raw request factual =
      if-cases (IsRead request) (is_empty raw) (λ met. tt)
        (λ other.
          check_echo-IsRead request (if factual then parse_factual m (loads raw) else parsed raw [])
            (if-cases (IsCiting P) factual (λ met. parse_factual-IsCiting (loads raw))
              (λ plain. (tt, tt))))

-- The labels of the prompt name the sources of the evidence.
pub label_map-sources : (is : List EvidenceItem) → All (λ p. IsSource is p.1) (label_map is)
unfolding label_map
label_map-sources is = label_from-sources (source_ids is) 1 is (elem_self (source_ids is))
