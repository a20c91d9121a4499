-- ===== src/Memory/Compression/Budget.antt =====
-- The compressed context keeps to its budget and loses no evidence silently
-- (memory/retrieval/context_compressor.py).
use prima_next.Base.{
  ℕ, zero, suc, ◌+◌, ◌-◌, ◌≤◌, ◌≡◌, refl, sym, ap, subst, ◌∙◌, true, ◌||◌, Option, none, some, List,
  [], ◌∷◌, ◌++◌, map, elem, length, is_empty, if-cases, arith, All, leb, ltb,
}
use prima_next.Base.Keys.{All-imp}
use prima_next.Base.Text.{Text, text_eq, text_beq_iff}
use prima_next.Base.Words.{words, join_words, IsWord, words-IsWord, words-join_words}
use prima_next.Memory.Compression.{
  evidence_id, CompressedContext, token_count, token_sum, take, Kept, keep_item, drop_item, shrink,
  compress, left_out,
}
use prima_next.Reasoning.{EvidenceItem}

take-All : (n : ℕ) (ws : List Text) → All IsWord ws → All IsWord (take n ws)
take-All zero ws h = tt
take-All (suc n) [] h = tt
take-All (suc n) (w ∷ ws) h = (h.0, take-All n ws h.1)

length-take : (n : ℕ) (ws : List Text) → length (take n ws) ≤ n
length-take zero ws = omega arith
length-take (suc n) [] = omega arith
length-take (suc n) (w ∷ ws) = omega (arith, length-take n ws)

-- A kept item counts the words that were selected.
kept-count :
    (n : ℕ) (t : Text) → token_count (join_words (take n (words t))) ≡ length (take n (words t))
kept-count n t =
    ap length (words-join_words (take n (words t)) (take-All n (words t) (words-IsWord t)))

-- What a compression of the items under so many words keeps: no more words, and of each item the
-- identity, retained or dropped, in the order of the items.
record IsKept (remaining : ℕ) (is : List EvidenceItem) (k : Kept) : Type 0 where
  small : token_sum k.0 ≤ remaining
  complete : length k.0 + length k.1 ≡ length is
  accounted :
      All (λ i. (elem (evidence_id i) (map evidence_id k.0) || elem (evidence_id i) k.1) ≡ true) is
  honest : All (λ (j : EvidenceItem). elem (evidence_id j) (map evidence_id is) ≡ true) k.0

drop-IsKept :
    (remaining : ℕ) (i : EvidenceItem) (is : List EvidenceItem) (k : Kept)
    → IsKept remaining is k
    → IsKept remaining (i ∷ is) (drop_item i k)
drop-IsKept remaining i is (items, ids) h =
    let key = evidence_id i in
    let found = map evidence_id items in
    record {
      small = h.small;
      complete = omega (arith, h.complete);
      accounted = (
        ground (arith, text_beq_iff key key),
        All-imp (λ j. (elem (evidence_id j) found || elem (evidence_id j) ids) ≡ true)
            (λ j. (elem (evidence_id j) found || elem (evidence_id j) (key ∷ ids)) ≡ true) is
            (λ j was. ground (arith, was)) h.accounted,
      );
      honest =
          All-imp (λ (j : EvidenceItem). elem (evidence_id j) (map evidence_id is) ≡ true)
            (λ (j : EvidenceItem). elem (evidence_id j) (map evidence_id (i ∷ is)) ≡ true) items
            (λ j was. ground (arith, was)) h.honest;
    }

keep-IsKept :
    (remaining : ℕ) (i : EvidenceItem) (is : List EvidenceItem) (selected : List Text) (k : Kept)
    → token_count (join_words selected) ≡ length selected
    → length selected ≤ remaining
    → IsKept (remaining - length selected) is k
    → IsKept remaining (i ∷ is) (keep_item i selected k)
unfolding evidence_id
keep-IsKept remaining i is selected (items, ids) counted fits h =
    let key = evidence_id i in
    let found = map evidence_id items in
    record {
      small = omega (arith, h.small, counted, fits);
      complete = omega (arith, h.complete);
      accounted = (
        ground (arith, text_beq_iff key key),
        All-imp (λ j. (elem (evidence_id j) found || elem (evidence_id j) ids) ≡ true)
            (λ j. (elem (evidence_id j) (key ∷ found) || elem (evidence_id j) ids) ≡ true) is
            (λ j was. ground (arith, was)) h.accounted,
      );
      honest = (
        ground (arith, text_beq_iff key key),
        All-imp (λ (j : EvidenceItem). elem (evidence_id j) (map evidence_id is) ≡ true)
            (λ (j : EvidenceItem). elem (evidence_id j) (map evidence_id (i ∷ is)) ≡ true) items
            (λ j was. ground (arith, was)) h.honest,
      );
    }

shrink-IsKept : (remaining : ℕ) (is : List EvidenceItem) → IsKept remaining is (shrink remaining is)
unfolding shrink
shrink-IsKept remaining [] = record {
  small = omega arith;
  complete = refl;
  accounted = tt;
  honest = tt;
}
shrink-IsKept remaining (i ∷ is) =
    let selected = take remaining (words i.text) in
    if-cases (IsKept remaining (i ∷ is)) (leb remaining 0 || is_empty selected)
      (λ met. drop-IsKept remaining i is (shrink remaining is) (shrink-IsKept remaining is))
      (λ other.
        keep-IsKept remaining i is selected (shrink (remaining - length selected) is)
          (kept-count remaining i.text) (length-take remaining (words i.text))
          (shrink-IsKept (remaining - length selected) is))

-- No identifier is added at the end: the loop has accounted for each of them.
left_out-[] :
    (items : List EvidenceItem) (ids : List Text) (is : List EvidenceItem)
    → All
        (λ i. (elem (evidence_id i) (map evidence_id items) || elem (evidence_id i) ids) ≡ true)
        is
    → left_out is (items, ids) ≡ []
left_out-[] items ids [] h = refl
left_out-[] items ids (i ∷ is) h = grind (arith, h.0, left_out-[] items ids is h.1)

-- What an enabled compression answers: an error on a budget of no word, else a context within the
-- budget that retains or drops each identity of the evidence and adds none.
abbrev pub IsAudited : ℕ → List EvidenceItem → Option CompressedContext → Type 0
IsAudited budget is none = budget ≡ 0
IsAudited budget is (some c) =
    (1 ≤ budget)
    × (token_sum c.evidence ≤ budget)
    × (c.compressed_tokens ≡ token_sum c.evidence)
    × (length c.evidence + length c.dropped_evidence_ids ≡ length is)
    × All
        (λ i.
          (elem (evidence_id i) (map evidence_id c.evidence)
            || elem (evidence_id i) c.dropped_evidence_ids)
          ≡ true)
        is
    × All (λ (j : EvidenceItem). elem (evidence_id j) (map evidence_id is) ≡ true) c.evidence

append-[] : {A : Type 0} → (xs : List A) → xs ++ [] ≡ xs
append-[] [] = refl
append-[] (x ∷ xs) = ap (◌∷◌ x) (append-[] xs)

-- An enabled compression refuses exactly a budget of no word; otherwise the evidence it retains
-- has at most `budget` words, which is the number it reports, every item of the evidence is
-- retained or named among the dropped, one by one, and what it retains stems from the evidence.
pub compress-IsAudited :
    (is : List EvidenceItem) (budget : ℕ) → IsAudited budget is (compress true is budget)
unfolding compress
compress-IsAudited is budget =
    let k = shrink budget is in
    let h = shrink-IsKept budget is in
    let all = ap (◌++◌ k.1) (left_out-[] k.0 k.1 is h.accounted) ∙ append-[] k.1 in
    if-cases (IsAudited budget is) (ltb budget 1) (λ met. ground arith)
      (λ other. (
        ground arith,
        h.small,
        refl,
        subst (λ ids. length k.0 + length ids ≡ length is) (sym all) h.complete,
        subst
            (λ ids.
              All
                (λ i.
                  (elem (evidence_id i) (map evidence_id k.0) || elem (evidence_id i) ids) ≡ true)
                is)
            (sym all) h.accounted,
        h.honest,
      ))
