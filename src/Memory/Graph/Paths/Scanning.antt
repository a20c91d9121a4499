-- ===== src/Memory/Graph/Paths/Scanning.antt =====
-- What the scan of one node's links keeps (memory/graph/graph_repository.py).
use prima_next.Base.{
  ℕ, ◌+◌, ◌≤◌, ◌≡◌, refl, ap, subst, ◌∙◌, ◌⊎◌, inl, inr, Bool, true, false, ◌==◌, List, [], ◌∷◌,
  ◌++◌, leb, leb→le, elem, elem-append, map, length, length-append, if-cases, Bool-cases, arith,
  All, All-append,
}
use prima_next.Base.Keys.{All-imp}
use prima_next.Base.Text.{Text, text_eq, text_beq_iff}
use prima_next.Memory.Graph.{GraphRepository, linked}
use prima_next.Memory.Graph.Paths.{Queue, Scan, met, going, scan}
use prima_next.Memory.Graph.Walks.{Walk, Trail, next, IsShortest, IsAnswer, Trail-IsAnswer}

abbrev pub heads : Queue → List Text
heads = map (λ e. e.0)

-- The paths of a queue have one length, and from some point on one more.
abbrev pub IsLevelled : ℕ → Queue → Type 0
IsLevelled d [] = Unit
IsLevelled d (e ∷ q) =
    ((length e.1 ≡ d + 1) × IsLevelled d q)
    ⊎ All (λ (f : Text × List Text). length f.1 ≡ d + 2) (e ∷ q)

IsLevelled-last :
    (d : ℕ) (q : Queue) (e : Text × List Text)
    → IsLevelled d q
    → length e.1 ≡ d + 2
    → IsLevelled d (q ++ (e ∷ []))
IsLevelled-last d [] e h k = inr (k, tt)
IsLevelled-last d (f ∷ q) e (inl (l, rest)) k = inl (l, IsLevelled-last d q e rest k)
IsLevelled-last d (f ∷ q) e (inr all) k =
    inr (All-append (λ (f : Text × List Text). length f.1 ≡ d + 2) (f ∷ q) (e ∷ []) all (k, tt))

heads-append : (q : Queue) (e : Text × List Text) → heads (q ++ (e ∷ [])) ≡ heads q ++ (e.0 ∷ [])
heads-append [] e = refl
heads-append (f ∷ q) e = ap (λ hs. f.0 ∷ hs) (heads-append q e)

queued-last :
    (u : Text) (q : Queue) (e : Text × List Text)
    → (e.0 == u) ≡ true
    → elem u (heads (q ++ (e ∷ []))) ≡ true
queued-last u q e h = rw (heads-append q e) (elem-append u (heads q) (e.0 ∷ []) ∙ ground arith)

queued-more :
    (u : Text) (q : Queue) (e : Text × List Text)
    → elem u (heads q) ≡ true
    → elem u (heads (q ++ (e ∷ []))) ≡ true
queued-more u q e h = rw (heads-append q e) (elem-append u (heads q) (e.0 ∷ []) ∙ ground arith)

module _ (g : GraphRepository) (source target : Text) where
  -- A queued name is marked, and its path is a shortest one.
  abbrev pub IsEntry : List Text → Text × List Text → Type 0
  IsEntry visited e =
      (elem e.0 visited ≡ true) × Trail g source e.0 e.1 × IsShortest g source e.0 e.1

  -- Every name within the distance is marked, and the target is not. A marked name waits in the
  -- queue, or its links are marked, or it is the one in hand.
  pub record IsSearch (hand : Text → Type 0) (d : ℕ) (visited : List Text) (queue : Queue)
      : Type 0 where
    pub source_marked : elem source visited ≡ true
    pub missing : elem target visited ≡ false
    pub entries : All (IsEntry visited) queue
    pub levels : IsLevelled d queue
    pub near : (n : ℕ) (v : Text) → Walk g source n v → n ≤ d → elem v visited ≡ true
    pub closed :
        (u : Text)
        → elem u visited ≡ true
        → hand u
          ⊎ ((elem u (heads queue) ≡ true)
              ⊎ ((v : Text) → elem v (linked u g) ≡ true → elem v visited ≡ true))

  -- What a scan leads to: an answer, or a search in which the names scanned are marked.
  abbrev pub IsScanned : (Text → Type 0) → ℕ → List Text → List Text → Scan → Type 0
  IsScanned hand d ns visited (met p) = IsAnswer g source target p
  IsScanned hand d ns visited (going v q) =
      IsSearch hand d v q
      × All (λ n. elem n v ≡ true) ns
      × ((u : Text) → elem u visited ≡ true → elem u v ≡ true)

  contrary : {b : Bool} → b ≡ true → b ≡ false → ⊥
  contrary h k = cc

  marked_self : (n : Text) (visited : List Text) → elem n (n ∷ visited) ≡ true
  marked_self n visited = ground (arith, text_beq_iff n n)

  marked_more :
      (n v : Text) (visited : List Text) → elem v visited ≡ true → elem v (n ∷ visited) ≡ true
  marked_more n v visited h = ground arith

  marked_other :
      (n u : Text) (visited : List Text)
      → elem u (n ∷ visited) ≡ true
      → (n == u) ≡ false
      → elem u visited ≡ true
  marked_other n u visited m h = ground arith

  closed-more :
      (hand : Text → Type 0) (n u : Text) (visited : List Text) (queue : Queue)
      (e : Text × List Text)
      → hand u
        ⊎ ((elem u (heads queue) ≡ true)
            ⊎ ((v : Text) → elem v (linked u g) ≡ true → elem v visited ≡ true))
      → hand u
        ⊎ ((elem u (heads (queue ++ (e ∷ []))) ≡ true)
            ⊎ ((v : Text) → elem v (linked u g) ≡ true → elem v (n ∷ visited) ≡ true))
  closed-more hand n u visited queue e (inl h) = inl h
  closed-more hand n u visited queue e (inr (inl q)) = inr (inl (queued-more u queue e q))
  closed-more hand n u visited queue e (inr (inr f)) =
      inr (inr (λ v l. marked_more n v visited (f v l)))

  -- A name that is linked to the one in hand and not yet marked.
  module _ (hand : Text → Type 0) (d : ℕ) (current : Text) (path : List Text)
      (reached : Trail g source current path) (level : length path ≡ d + 1) where
    keeps :
        (n : Text) (ns visited visited' : List Text) (s : Scan)
        → ((u : Text) → elem u visited ≡ true → elem u visited' ≡ true)
        → elem n visited' ≡ true
        → IsScanned hand d ns visited' s
        → IsScanned hand d (n ∷ ns) visited s
    keeps n ns visited visited' (met p) more m h = h
    keeps n ns visited visited' (going v q) more m h =
        (h.0, (h.2 n m, h.1), λ u k. h.2 u (more u k))

    fresh-IsShortest :
        (n : Text) (visited : List Text) (queue : Queue)
        → IsSearch hand d visited queue
        → elem n visited ≡ false
        → IsShortest g source n (path ++ (n ∷ []))
    fresh-IsShortest n visited queue h f m w = elim (Bool-cases (leb m d)) [
      | inl near ↦ absurd (contrary (h.near m n w (leb→le m d near)) f)
      | inr far ↦ ground (arith, length-append path (n ∷ []), level)
    ]

    add-IsSearch :
        (n : Text) (visited : List Text) (queue : Queue)
        → elem n (linked current g) ≡ true
        → elem n visited ≡ false
        → (n == target) ≡ false
        → IsSearch hand d visited queue
        → IsSearch hand d (n ∷ visited) (queue ++ ((n, path ++ (n ∷ [])) ∷ []))
    add-IsSearch n visited queue l f t h =
        let entry : Text × List Text = (n, path ++ (n ∷ [])) in
        record {
          source_marked = ground (arith, h.source_marked);
          missing = ground (arith, h.missing);
          entries =
              All-append (IsEntry (n ∷ visited)) queue (entry ∷ [])
                (All-imp (IsEntry visited) (IsEntry (n ∷ visited)) queue
                  (λ e k. (marked_more n e.0 visited k.0, k.1, k.2)) h.entries)
                (
                  (
                    marked_self n visited,
                    next current path reached l refl,
                    fresh-IsShortest n visited queue h f,
                  ),
                  tt,
                );
          levels =
              IsLevelled-last d queue entry h.levels
                (omega (arith, length-append path (n ∷ []), level));
          near = λ m v w k. marked_more n v visited (h.near m v w k);
          closed = λ u m. elim (Bool-cases (n == u)) [
            | inl same ↦ inr (inl (queued-last u queue entry same))
            | inr other ↦
                closed-more hand n u visited queue entry
                  (h.closed u (marked_other n u visited m other))
          ];
        }

    pub scan-IsScanned :
        (ns visited : List Text) (queue : Queue)
        → All (λ n. elem n (linked current g) ≡ true) ns
        → IsSearch hand d visited queue
        → IsScanned hand d ns visited (scan target path ns visited queue)
    unfolding scan
    scan-IsScanned [] visited queue l h = (h, tt, λ u m. m)
    scan-IsScanned (n ∷ ns) visited queue l h =
        if-cases (IsScanned hand d (n ∷ ns) visited) (elem n visited)
          (λ seen.
            keeps n ns visited visited (scan target path ns visited queue) (λ u m. m) seen
              (scan-IsScanned ns visited queue l.1 h))
          (λ fresh.
            if-cases (IsScanned hand d (n ∷ ns) visited) (n == target)
              (λ hit.
                let same = (text_beq_iff n target).0 hit in
                Trail-IsAnswer g source target (path ++ (n ∷ []))
                  (subst (λ t. Trail g source t (path ++ (n ∷ []))) same
                    (next current path reached l.0 refl))
                  (subst (λ t. IsShortest g source t (path ++ (n ∷ []))) same
                    (fresh-IsShortest n visited queue h fresh)))
              (λ other.
                let queue' = queue ++ ((n, path ++ (n ∷ [])) ∷ []) in
                keeps n ns visited (n ∷ visited) (scan target path ns (n ∷ visited) queue')
                  (λ u m. marked_more n u visited m) (marked_self n visited)
                  (scan-IsScanned ns (n ∷ visited) queue' l.1
                    (add-IsSearch n visited queue l.0 fresh other h))))
