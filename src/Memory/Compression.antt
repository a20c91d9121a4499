-- ===== src/Memory/Compression.antt =====
-- memory/retrieval/context_compressor.py: evidence under a budget of words. The diagnostics of the
-- audit record are left out.
pub mod Budget
use prima_next.Base.{
  ℕ, zero, suc, ◌+◌, ◌-◌, Bool, not, ◌&&◌, ◌||◌, Option, none, some, List, [], ◌∷◌, ◌++◌, map,
  length, is_empty, elem, filter_by, ltb, leb, if◌then◌else◌,
}
use prima_next.Base.Decimal.{decimal}
use prima_next.Base.Dict.{Dict, insert}
use prima_next.Base.Text.{Text, codes, text_eq}
use prima_next.Base.Words.{words, join_words}
use prima_next.Reasoning.{EvidenceItem}

-- The `evidence_id` that the integrator gives an item.
unfoldable pub evidence_id : EvidenceItem → Text
evidence_id i = i.source_id ++ (codes ":" ++ decimal i.hop)

pub record CompressedContext : Type 0 where
  pub evidence : List EvidenceItem
  pub citation_map : Dict Text Text
  pub dropped_evidence_ids : List Text
  pub original_tokens : ℕ
  pub compressed_tokens : ℕ
  pub token_budget : ℕ
  pub enabled : Bool

-- `_token_count`, and its sum over the items.
abbrev pub token_count : Text → ℕ
token_count t = length (words t)

abbrev pub token_sum : List EvidenceItem → ℕ
token_sum [] = 0
token_sum (i ∷ is) = token_count i.text + token_sum is

-- `{item.evidence_id: item.source_id for item in evidence}`
abbrev pub cite : List EvidenceItem → Dict Text Text → Dict Text Text
cite [] m = m
cite (i ∷ is) m = cite is (insert (evidence_id i) i.source_id m)

-- `words[:n]`
abbrev pub take : ℕ → List Text → List Text
take zero ws = []
take (suc n) [] = []
take (suc n) (w ∷ ws) = w ∷ take n ws

abbrev pub Kept : Type 0
Kept = List EvidenceItem × List Text

abbrev pub keep_item : EvidenceItem → List Text → Kept → Kept
keep_item i selected (items, ids) = (record i { text = join_words selected } ∷ items, ids)

abbrev pub drop_item : EvidenceItem → Kept → Kept
drop_item i (items, ids) = (items, evidence_id i ∷ ids)

-- The loop over the evidence, with the words that are left: what is retained and what is dropped.
unfoldable pub shrink : ℕ → List EvidenceItem → Kept
unfolding words join_words
shrink remaining [] = ([], [])
shrink remaining (i ∷ is) =
    let selected = take remaining (words i.text) in
    let dropped = drop_item i (shrink remaining is) in
    let kept = keep_item i selected (shrink (remaining - length selected) is) in
    if leb remaining 0 || is_empty selected then dropped else kept

-- The identifiers that are in neither list, which `compress` adds at the end.
abbrev pub left_out : List EvidenceItem → Kept → List Text
left_out is (items, ids) =
    filter_by (λ k. not (elem k (map evidence_id items)) && not (elem k ids)) (map evidence_id is)

-- `compress`: none is the `ValueError` on a budget of no word.
unfoldable pub compress : Bool → List EvidenceItem → ℕ → Option CompressedContext
unfolding shrink
compress enabled is budget =
    let kept = shrink budget is in
    let citations = cite is [] in
    if ltb budget 1
    then none
    else if not enabled
    then some (record {
      evidence = is;
      citation_map = citations;
      dropped_evidence_ids = [];
      original_tokens = token_sum is;
      compressed_tokens = token_sum is;
      token_budget = budget;
      enabled = Bool.false;
    })
    else some (record {
      evidence = kept.0;
      citation_map = citations;
      dropped_evidence_ids = kept.1 ++ left_out is kept;
      original_tokens = token_sum is;
      compressed_tokens = token_sum kept.0;
      token_budget = budget;
      enabled = Bool.true;
    })
