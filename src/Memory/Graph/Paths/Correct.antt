-- ===== src/Memory/Graph/Paths/Correct.antt =====
-- The search finds a shortest path, or there is none (memory/graph/graph_repository.py).
use prima_next.Base.{
  ℕ, zero, suc, ◌+◌, ◌≤◌, ◌≡◌, refl, sym, subst, ◌⊎◌, inl, inr, Bool, true, false, ◌==◌, Option,
  none, some, List, [], ◌∷◌, elem, length, if-cases, Bool-cases, arith, All,
}
use prima_next.Base.Keys.{All-elem, All-self}
use prima_next.Base.Text.{Text, text_eq, text_beq_iff}
use prima_next.Memory.Graph.{GraphRepository, linked}
use prima_next.Memory.Graph.Paths.{Queue, Scan, met, going, scan, search, shortest_path}
use prima_next.Memory.Graph.Paths.Scanning.{
  heads, IsLevelled, IsEntry, IsSearch, IsScanned, scan-IsScanned,
}
use prima_next.Memory.Graph.Paths.Ends.{enough, shortest_path-ends}
use prima_next.Memory.Graph.Walks.{Walk, here, step, start, IsAnswer}

abbrev Nothing : Text → Type 0
Nothing u = ⊥

module _ (g : GraphRepository) (source target : Text) where
  -- With an empty queue the marks are closed under links.
  exhausted :
      (d : ℕ) (visited : List Text)
      → IsSearch g source target Nothing d visited []
      → {n : ℕ} {v : Text} → Walk g source n v
      → elem v visited ≡ true
  exhausted d visited h here = h.source_marked
  exhausted d visited h (step {n} {u} {v} w l) = elim (h.closed u (exhausted d visited h w)) [
    | inl no_hand ↦ absurd no_hand
    | inr (inl queued) ↦ cc
    | inr (inr all) ↦ all v l
  ]

  unreachable :
      (d : ℕ) (visited : List Text)
      → IsSearch g source target Nothing d visited []
      → IsAnswer g source target []
  unreachable d visited h n w = contrary (exhausted d visited h w) h.missing
    where
      contrary : {b : Bool} → b ≡ true → b ≡ false → ⊥
      contrary p q = cc

  too_far :
      (d n : ℕ) (u : Text) (visited : List Text) (queue : Queue)
      → All (IsEntry g source target visited) queue
      → All (λ (f : Text × List Text). length f.1 ≡ d + 2) queue
      → elem u (heads queue) ≡ true
      → Walk g source n u
      → n ≤ d
      → ⊥
  too_far d n u visited [] k all q w b = cc
  too_far d n u visited (e ∷ queue) k all q w b = elim (Bool-cases (e.0 == u)) [
    | inl same ↦
        let short = k.0.2 n (subst (Walk g source n) (sym ((text_beq_iff e.0 u).0 same)) w) in
        absurd (omega (arith, short, all.0))
    | inr other ↦ too_far d n u visited queue k.1 all.1 (ground arith) w b
  ]

  -- All paths of the queue are of the next length: the distance searched grows by one.
  raised-near :
      (d : ℕ) (visited : List Text) (queue : Queue)
      → IsSearch g source target Nothing d visited queue
      → All (λ (f : Text × List Text). length f.1 ≡ d + 2) queue
      → (n : ℕ) (v : Text) → Walk g source n v
      → n ≤ suc d
      → elem v visited ≡ true
  raised-near d visited queue h all n v here k = h.source_marked
  raised-near d visited queue h all (suc n) v (step {u = u} w l) k =
      elim (h.closed u (h.near n u w (omega arith))) [
        | inl no_hand ↦ absurd no_hand
        | inr (inl queued) ↦
            absurd (too_far d n u visited queue h.entries all queued w (omega arith))
        | inr (inr f) ↦ f v l
      ]

  IsLevelled-flat :
      (d : ℕ) (queue : Queue)
      → All (λ (f : Text × List Text). length f.1 ≡ d + 2) queue
      → IsLevelled (suc d) queue
  IsLevelled-flat d [] all = tt
  IsLevelled-flat d (e ∷ queue) all = inl (omega (arith, all.0), IsLevelled-flat d queue all.1)

  raised :
      (d : ℕ) (visited : List Text) (queue : Queue)
      → IsSearch g source target Nothing d visited queue
      → All (λ (f : Text × List Text). length f.1 ≡ d + 2) queue
      → IsSearch g source target Nothing (suc d) visited queue
  raised d visited queue h all = record {
    source_marked = h.source_marked;
    missing = h.missing;
    entries = h.entries;
    levels = IsLevelled-flat d queue all;
    near = raised-near d visited queue h all;
    closed = h.closed;
  }

  -- The head of the queue is taken in hand, and laid down once its links are marked.
  taken-closed :
      (current u : Text) (path visited : List Text) (queue : Queue)
      → Nothing u
        ⊎ ((elem u (heads ((current, path) ∷ queue)) ≡ true)
            ⊎ ((v : Text) → elem v (linked u g) ≡ true → elem v visited ≡ true))
      → (current ≡ u)
        ⊎ ((elem u (heads queue) ≡ true)
            ⊎ ((v : Text) → elem v (linked u g) ≡ true → elem v visited ≡ true))
  taken-closed current u path visited queue (inl no_hand) = absurd no_hand
  taken-closed current u path visited queue (inr (inl q)) = elim (Bool-cases (current == u)) [
    | inl same ↦ inl ((text_beq_iff current u).0 same)
    | inr other ↦ inr (inl (ground arith))
  ]
  taken-closed current u path visited queue (inr (inr f)) = inr (inr f)

  taken :
      (d : ℕ) (current : Text) (path visited : List Text) (queue : Queue)
      → IsSearch g source target Nothing d visited ((current, path) ∷ queue)
      → IsLevelled d queue
      → IsSearch g source target (λ u. current ≡ u) d visited queue
  taken d current path visited queue h l = record {
    source_marked = h.source_marked;
    missing = h.missing;
    entries = h.entries.1;
    levels = l;
    near = h.near;
    closed = λ u m. taken-closed current u path visited queue (h.closed u m);
  }

  laid-closed :
      (current u : Text) (visited : List Text) (queue : Queue)
      → All (λ n. elem n visited ≡ true) (linked current g)
      → (current ≡ u)
        ⊎ ((elem u (heads queue) ≡ true)
            ⊎ ((v : Text) → elem v (linked u g) ≡ true → elem v visited ≡ true))
      → Nothing u
        ⊎ ((elem u (heads queue) ≡ true)
            ⊎ ((v : Text) → elem v (linked u g) ≡ true → elem v visited ≡ true))
  laid-closed current u visited queue all (inl same) = inr (
      inr (λ v l.
        All-elem (λ n. elem n visited ≡ true) v (linked current g) all
          (subst (λ c. elem v (linked c g) ≡ true) (sym same) l)))
  laid-closed current u visited queue all (inr rest) = inr rest

  laid :
      (d : ℕ) (current : Text) (visited : List Text) (queue : Queue)
      → IsSearch g source target (λ u. current ≡ u) d visited queue
      → All (λ n. elem n visited ≡ true) (linked current g)
      → IsSearch g source target Nothing d visited queue
  laid d current visited queue h all = record {
    source_marked = h.source_marked;
    missing = h.missing;
    entries = h.entries;
    levels = h.levels;
    near = h.near;
    closed = λ u m. laid-closed current u visited queue all (h.closed u m);
  }

  abbrev AnswersOption : Option (List Text) → Type 0
  AnswersOption none = Unit
  AnswersOption (some p) = IsAnswer g source target p

  after_scan :
      (d fuel : ℕ) (current : Text) (visited : List Text) (s : Scan)
      → ((visited' : List Text) (queue' : Queue)
          → IsSearch g source target Nothing d visited' queue'
          → AnswersOption (search fuel g target visited' queue'))
      → IsScanned g source target (λ u. current ≡ u) d (linked current g) visited s
      → AnswersOption (elim s [
        | met found ↦ some found
        | going visited' queue' ↦ search fuel g target visited' queue'
      ])
  after_scan d fuel current visited (met p) ih h = h
  after_scan d fuel current visited (going v q) ih h = ih v q (laid d current v q h.0 h.1)

  module _ (fuel : ℕ) (current : Text) (path visited : List Text) (queue : Queue)
      (ih : (d : ℕ) (visited' : List Text) (queue' : Queue)
        → IsSearch g source target Nothing d visited' queue'
        → AnswersOption (search fuel g target visited' queue')) where
    round :
        (d : ℕ)
        → IsSearch g source target Nothing d visited ((current, path) ∷ queue)
        → (length path ≡ d + 1) × IsLevelled d queue
        → AnswersOption (search (suc fuel) g target visited ((current, path) ∷ queue))
    unfolding search
    round d k l =
        after_scan d fuel current visited (scan target path (linked current g) visited queue) (ih d)
          (scan-IsScanned g source target (λ u. current ≡ u) d current path k.entries.0.1 l.0
            (linked current g) visited queue (All-self (linked current g))
            (taken d current path visited queue k l.1))

    levelled :
        (d : ℕ)
        → IsSearch g source target Nothing d visited ((current, path) ∷ queue)
        → IsLevelled d ((current, path) ∷ queue)
        → AnswersOption (search (suc fuel) g target visited ((current, path) ∷ queue))
    levelled d h (inl l) = round d h l
    levelled d h (inr all) =
        round (suc d) (raised d visited ((current, path) ∷ queue) h all)
          (omega (arith, all.0), IsLevelled-flat d queue all.1)

  search-answers :
      (fuel d : ℕ) (visited : List Text) (queue : Queue)
      → IsSearch g source target Nothing d visited queue
      → AnswersOption (search fuel g target visited queue)
  unfolding search
  search-answers zero d visited [] h = unreachable d visited h
  search-answers (suc fuel) d visited [] h = unreachable d visited h
  search-answers zero d visited (p ∷ queue) h = tt
  search-answers (suc fuel) d visited ((current, path) ∷ queue) h =
      levelled fuel current path visited queue (search-answers fuel) d h h.levels

  near_source : (n : ℕ) (v : Text) → Walk g source n v → n ≤ 0 → elem v (source ∷ []) ≡ true
  near_source n v here k = ground (arith, text_beq_iff source source)
  near_source (suc n) v (step w l) k = absurd (omega arith)

  initial :
      (source == target) ≡ false
      → IsSearch g source target Nothing 0 (source ∷ []) ((source, source ∷ []) ∷ [])
  initial apart = record {
    source_marked = ground (arith, text_beq_iff source source);
    missing = ground arith;
    entries = ((near_source 0 source here (omega arith), start refl refl, λ n w. omega arith), tt);
    levels = inl (refl, tt);
    near = near_source;
    closed = λ u m. inr (inl m);
  }

  path-answers : (fuel : ℕ) → AnswersOption (shortest_path fuel g source target)
  unfolding shortest_path
  path-answers fuel =
      if-cases AnswersOption (source == target)
        (λ same. (start (sym ((text_beq_iff source target).0 same)) refl, λ n w. omega arith))
        (λ apart. search-answers fuel 0 _ _ (initial apart))

-- The search of a path ends, and answers rightly on every graph and in whatever order the links of
-- a node are scanned: with a path along links from the source to the target that no walk between
-- them undercuts, or with the empty list, and then no walk leads from the one to the other.
pub shortest_path-IsAnswer :
    (g : GraphRepository) (source target : Text)
    → (p : List Text) × (shortest_path (enough g) g source target ≡ some p)
      × IsAnswer g source target p
shortest_path-IsAnswer g source target =
    let (p, ends) = shortest_path-ends g source target in
    (p, ends, subst (AnswersOption g source target) ends (path-answers g source target (enough g)))
