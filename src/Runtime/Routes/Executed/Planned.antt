-- ===== src/Runtime/Routes/Executed/Planned.antt =====
-- The components that a request runs are those that its route planned
-- (runtime/prima_runtime.py, runtime/route_profiles.py).
use prima_next.Base.{
  ◌≡◌, refl, sym, ◌∙◌, subst, inl, inr, Bool, true, false, not, ◌&&◌, ◌||◌, ◌==◌, some, List, [],
  ◌∷◌, All, elem, all, Bool-cases, arith,
}
use prima_next.Base.Text.{Text, codes, text_eq}
use prima_next.Base.Keys.{elem-filter_by}
use prima_next.Runtime.Contracts.{
  TaskKind, ExecutionProfile, task_value, RuntimeComponent, component_eq, component_beq_iff,
  all_components, query_rewriter, memory_index, fusion, confidence_estimator, reranker,
  dense_retrieval, sparse_retrieval, temporal_retrieval, graph_traversal, graph_reasoning,
  context_compressor, tool_executor,
}
use prima_next.Runtime.Routes.{RoutePlan, route_matrix}
use prima_next.Runtime.Routes.Executed.Coverage.{
  is_expected, covers, retrieval_all, coverage, HasCoverage, matrix-HasCoverage, all-All, is_task,
}
use prima_next.Runtime.Routes.Executed.{
  RunReport, when, always, updates, is_updated, executed_components, completed_phase, has_retrieved,
  has_run, has_task,
}
use prima_next.Workflow.Context.{ExecutionContext}
use prima_next.Workflow.Phase
use prima_next.Workflow.Phase.{
  WorkflowPhase, phase_eq, state_load, affect, memory_retrieval, evidence_acquisition, planning,
  world_simulation, uncertainty_estimation, reflection, action, answer_generation,
  output_validation, output, memory_commit, maintenance_enqueue, state_commit,
}

-- Every phase that has completed stands on the route.
abbrev pub StaysOn : RoutePlan → ExecutionContext → Type 0
StaysOn r c = (p : WorkflowPhase) → completed_phase p c ≡ true → elem p r.phases ≡ true

and_left : (a b : Bool) → (a && b) ≡ true → a ≡ true
and_left a b h = ground arith

module _ (r : RoutePlan) (f : RunReport) (c : ExecutionContext) where
  abbrev Expected : RuntimeComponent → Type 0
  Expected x = is_expected r x ≡ true

  when-All :
      (b : Bool) (xs : List RuntimeComponent)
      → (b ≡ true → All Expected xs)
      → All Expected (when b xs)
  when-All true xs h = h refl
  when-All false xs h = tt

  covers-All :
      (p : WorkflowPhase) (xs : List RuntimeComponent)
      → StaysOn r c
      → covers r p xs ≡ true
      → completed_phase p c ≡ true
      → All Expected xs
  covers-All p xs on_route k h =
      all-All RuntimeComponent (is_expected r) xs (ground (arith, on_route p h))

  update-All :
      (p : WorkflowPhase) (xs : List RuntimeComponent)
      → StaysOn r c
      → covers r p xs ≡ true
      → All Expected (when (completed_phase p c) xs)
  update-All p xs stays k = when-All (completed_phase p c) xs (λ e. covers-All p xs stays k e)

  -- The same under a further condition, on which the coverage may depend.
  further-All :
      (p : WorkflowPhase) (b : Bool) (xs : List RuntimeComponent)
      → StaysOn r c
      → (b ≡ true → covers r p xs ≡ true)
      → All Expected (when (completed_phase p c && b) xs)
  further-All p b xs stays k =
      when-All (completed_phase p c && b) xs
        (λ e. covers-All p xs stays (k (ground arith)) (ground arith))

  All-elem :
      (x : RuntimeComponent) (xs : List RuntimeComponent)
      → All Expected xs
      → elem x xs ≡ true
      → Expected x
  All-elem x [] h e = cc
  All-elem x (y ∷ ys) h e = elim (Bool-cases (y == x)) [
    | inl same ↦ subst Expected ((component_beq_iff y x).0 same) h.0
    | inr other ↦ All-elem x ys h.1 (ground arith)
  ]

  part-All :
      All Expected retrieval_all
      → (b : Bool) (x : RuntimeComponent) → elem x retrieval_all ≡ true
      → All Expected (when b (x ∷ []))
  part-All h b x e = when-All b (x ∷ []) (λ met. (All-elem x retrieval_all h e, tt))

  rewriter-All :
      All Expected retrieval_all
      → All Expected (query_rewriter ∷ memory_index ∷ fusion ∷ confidence_estimator ∷ [])
  rewriter-All h = (h.0, (h.1.0, (h.1.1.0, (h.1.1.1.0, tt))))

  compressor-All : All Expected retrieval_all → All Expected (context_compressor ∷ [])
  compressor-All h = (All-elem context_compressor retrieval_all h refl, tt)

  updated :
      (us : List (List RuntimeComponent)) (x : RuntimeComponent)
      → All (All Expected) us
      → is_updated us x ≡ true
      → Expected x
  updated [] x h e = cc
  updated (u ∷ us) x h e = elim (Bool-cases (elem x u)) [
    | inl found ↦ All-elem x u h.0 found
    | inr other ↦ updated us x h.1 (ground arith)
  ]

  -- The tools and the index of a replay run only for the task that has them.
  task-covers :
      (t : Text) (p : WorkflowPhase) (xs : List RuntimeComponent)
      → c.metadata.task_kind ≡ task_value r.task_kind
      → (not (is_task t r) || covers r p xs) ≡ true
      → has_task t c ≡ true
      → covers r p xs ≡ true
  task-covers t p xs k h e =
      let h' = subst (λ v. (not (v == t) || covers r p xs) ≡ true) (sym k) h in ground arith

  retrieved :
      StaysOn r c
      → covers r evidence_acquisition retrieval_all ≡ true
      → covers r memory_retrieval retrieval_all ≡ true
      → has_retrieved c ≡ true
      → All Expected retrieval_all
  retrieved stays ea mr e = elim (Bool-cases (completed_phase evidence_acquisition c)) [
    | inl h ↦ covers-All evidence_acquisition retrieval_all stays ea h
    | inr h ↦ covers-All memory_retrieval retrieval_all stays mr (ground arith)
  ]

  updates-All :
      StaysOn r c
      → c.metadata.task_kind ≡ task_value r.task_kind
      → all (λ b. b) (coverage r) ≡ true
      → All (All Expected) (updates f c)
  unfolding updates
  updates-All stays k h =
      let (
        fi,
        (
          sl,
          (
            af,
            (
              ea,
              (mr, (pl, (ws, (ue, (re, (ac, (ag, (ov, (di, (ou, (mc, (mi, (me, (sc, u)))))))))))))),
            ),
          ),
        ),
      ) =
        all-All Bool (λ b. b) (coverage r) h in
      let found = retrieved stays ea mr in
      (
        all-All RuntimeComponent (is_expected r) always fi,
        (
          update-All state_load _ stays sl,
          (
            update-All affect _ stays af,
            (
              when-All (has_retrieved c) _ (λ e. rewriter-All (found e)),
              (
                when-All (has_retrieved c) _
                    (λ e. part-All (found e) f.reranker_active reranker refl),
                (
                  when-All (has_retrieved c) _
                      (λ e. part-All (found e) (has_run (codes "dense") f) dense_retrieval refl),
                  (
                    when-All (has_retrieved c) _ (λ e.
                        part-All (found e) (has_run (codes "sparse") f) sparse_retrieval refl),
                    (
                      when-All (has_retrieved c) _ (λ e.
                          part-All (found e) (has_run (codes "temporal") f) temporal_retrieval
                            refl),
                      (
                        when-All (has_retrieved c) _ (λ e.
                            part-All (found e) (has_run (codes "graph") f) graph_traversal refl),
                        (
                          when-All (has_retrieved c) _ (λ e.
                              part-All (found e) f.graph_reasoning_invoked graph_reasoning refl),
                          (
                            when-All _ (context_compressor ∷ []) (λ e. compressor-All (
                                covers-All evidence_acquisition retrieval_all stays ea
                                  (ground arith))),
                            (
                              update-All planning _ stays pl,
                              (
                                update-All world_simulation _ stays ws,
                                (
                                  update-All uncertainty_estimation _ stays ue,
                                  (
                                    update-All reflection _ stays re,
                                    (
                                      further-All action (has_task (codes "tool_request") c)
                                          (tool_executor ∷ []) stays
                                          (λ e.
                                            task-covers (codes "tool_request") action
                                              (tool_executor ∷ []) k ac e),
                                      (
                                        further-All answer_generation _ _ stays (λ e. ag),
                                        (
                                          update-All output_validation _ stays ov,
                                          (
                                            update-All Phase.document_ingestion _ stays di,
                                            (
                                              update-All output _ stays ou,
                                              (
                                                update-All memory_commit _ stays mc,
                                                (
                                                  further-All memory_commit
                                                      (has_task (codes "historical_replay") c)
                                                      (memory_index ∷ []) stays
                                                      (λ e.
                                                        task-covers (codes "historical_replay")
                                                          memory_commit (memory_index ∷ []) k mi e),
                                                  (
                                                    further-All maintenance_enqueue _ _ stays
                                                        (λ e. me),
                                                    (
                                                      further-All state_commit _ _ stays (λ e. sc),
                                                      tt,
                                                    ),
                                                  ),
                                                ),
                                              ),
                                            ),
                                          ),
                                        ),
                                      ),
                                    ),
                                  ),
                                ),
                              ),
                            ),
                          ),
                        ),
                      ),
                    ),
                  ),
                ),
              ),
            ),
          ),
        ),
      )

  within :
      (x : RuntimeComponent)
      → StaysOn r c
      → c.metadata.task_kind ≡ task_value r.task_kind
      → all (λ b. b) (coverage r) ≡ true
      → elem x (executed_components f c) ≡ true
      → Expected x
  unfolding executed_components
  within x stays k h e = updated (updates f c) x (updates-All stays k h) (
      and_left _ (elem x all_components)
        (sym (elem-filter_by (is_updated (updates f c)) x all_components) ∙ e))

-- A request whose completed phases all stand on its selected route runs no component that the
-- route does not plan, but for the emotion classifier, which the affect phase always counts, and
-- the temporal and graph strategies, which the retriever reports itself.
pub executed_components-expected :
    (t : TaskKind) (p : ExecutionProfile) (r : RoutePlan) (f : RunReport) (c : ExecutionContext)
    (x : RuntimeComponent)
    → route_matrix t p ≡ some r
    → StaysOn r c
    → c.metadata.task_kind ≡ task_value r.task_kind
    → elem x (executed_components f c) ≡ true
    → is_expected r x ≡ true
executed_components-expected t p r f c x m stays k e =
    within r f c x stays k (subst HasCoverage m (matrix-HasCoverage t p)) e
