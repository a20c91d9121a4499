-- ===== src/Reasoning/Evidence.antt =====
-- What `EvidenceIntegrator.integrate` collects (reasoning/evidence_integrator.py).
use prima_next.Base.{
  ℕ, ◌≤◌, ◌≡◌, refl, false, not, ◌||◌, List, [], ◌∷◌, ◌++◌, map, length, length-append, elem,
  elem-append, leb, IsNodup, Eq, arith, if-cases,
}
use prima_next.Base.Text.{Text, text_eq}
use prima_next.Reasoning.{
  EvidenceItem, EvidenceState, Retrieved, RetrievalResponse, normalise_text, is_repeated,
  integrate_one, integrate_all, integrate,
}

abbrev pub sources : List EvidenceItem → List Text
sources = map (λ i. i.source_id)

abbrev pub texts : List EvidenceItem → List Text
texts = map (λ i. normalise_text i.text)

-- No source and no text, up to case and punctuation, stands twice, and no more documents are there
-- than the budget allows.
pub record IsCollected (documents : ℕ) (items : List EvidenceItem) : Type 0 where
  pub distinct_sources : IsNodup (sources items)
  pub distinct_texts : IsNodup (texts items)
  pub bounded : length items ≤ documents

module _ {ℓ κ} {A : Type ℓ} {B : Type κ} where
  map-append : (f : A → B) (xs ys : List A) → map f (xs ++ ys) ≡ map f xs ++ map f ys
  map-append f [] ys = refl
  map-append f (x ∷ xs) ys = ground (arith, map-append f xs ys)

module _ {ℓ} {A : Type ℓ} ⦃test : Eq A⦄ where
  extended-IsNodup :
      (xs : List A) (a : A) → IsNodup xs → elem a xs ≡ false → IsNodup (xs ++ (a ∷ []))
  extended-IsNodup [] a h new = (refl, tt)
  extended-IsNodup (x ∷ xs) a h new = (
    ground (arith, elem-append x xs (a ∷ []), h.0, test.decides a x, test.decides x a),
    extended-IsNodup xs a h.1 (ground arith),
  )

added-IsCollected :
    (documents : ℕ) (items : List EvidenceItem) (i : EvidenceItem)
    → IsCollected documents items
    → elem i.source_id (sources items) ≡ false
    → elem (normalise_text i.text) (texts items) ≡ false
    → leb documents (length items) ≡ false
    → IsCollected documents (items ++ (i ∷ []))
added-IsCollected documents items i c new_source new_text room = record {
  distinct_sources =
      rw (map-append (λ (j : EvidenceItem). j.source_id) items (i ∷ []))
        (extended-IsNodup (sources items) i.source_id c.distinct_sources new_source);
  distinct_texts =
      rw (map-append (λ (j : EvidenceItem). normalise_text j.text) items (i ∷ []))
        (extended-IsNodup (texts items) (normalise_text i.text) c.distinct_texts new_text);
  bounded = ground (arith, length-append items (i ∷ []));
}

integrate_one-IsCollected :
    (documents hop : ℕ) (query : Text) (r : Retrieved) (items : List EvidenceItem) (added : ℕ)
    → IsCollected documents items
    → IsCollected documents (integrate_one documents hop query r (items, added)).0
integrate_one-IsCollected documents hop query r items added c =
    let P = (λ (acc : List EvidenceItem × ℕ). IsCollected documents acc.0) in
    if-cases P (not r.evidence_eligible) (λ _. c)
      (λ _.
        if-cases P (is_repeated r items || leb documents (length items)) (λ _. c)
          (λ new.
            added-IsCollected documents items _ c (ground arith) (ground arith) (ground arith)))

integrate_all-IsCollected :
    (documents hop : ℕ) (query : Text) (rs : List Retrieved) (items : List EvidenceItem) (added : ℕ)
    → IsCollected documents items
    → IsCollected documents (integrate_all documents hop query rs (items, added)).0
unfolding integrate_all
integrate_all-IsCollected documents hop query [] items added c = c
integrate_all-IsCollected documents hop query (r ∷ rs) items added c =
    let acc = integrate_one documents hop query r (items, added) in
    integrate_all-IsCollected documents hop query rs acc.0 acc.1
      (integrate_one-IsCollected documents hop query r items added c)

-- Integrating a response keeps the evidence free of repeated sources and repeated texts and within
-- the number of documents allowed, whatever was retrieved.
pub integrate-IsCollected :
    (hop : ℕ) (query : Text) (r : RetrievalResponse) (s : EvidenceState)
    → IsCollected s.request.budget.max_documents s.evidence_items
    → IsCollected s.request.budget.max_documents (integrate hop query r s).evidence_items
unfolding integrate
integrate-IsCollected hop query r s c =
    integrate_all-IsCollected s.request.budget.max_documents hop query r.results s.evidence_items 0
      c
