-- ===== src/Lib.antt =====
-- PRIMA-NEXT: an assistant whose runtime (runtime/) selects a route for a request and answers it
-- by a workflow of phases (workflow/). The workflow gathers evidence (reasoning/), asks a language
-- model (llm/), acts through tools behind a policy (action/, tools/), gates execution by
-- uncertainty (uncertainty/), keeps versioned session state (state/), talks over an event bus
-- (events/), keeps notes in a graph (memory/graph/) and maintains its memory in the background
-- (memory/maintenance/). Paths below are from the repository's root.
--
-- Workflow, and the modules below it, model workflow/orchestration_engine.py (`execute`,
-- `_execute_phase_with_retries`, `_route_phase_output`, `_requests_retrieval_retry`,
-- `_skip_phase`, `_phase_advice`, `_correction_phases`, `_publish`), workflow/correction_loop.py
-- (`review`, `complete`), workflow/workflow_state.py, workflow/execution_context.py,
-- workflow/task_router.py, workflow/controller_registry.py and reasoning/reflection_advisor.py.
-- The engine's state is the execution context, which every operation takes and returns; exceptions
-- are constructors of result types. A controller is an argument, a function of the number of calls
-- made before and of the context, so a theorem holds for every controller; `cancel_during` says
-- during which calls another task requests cancellation. The loop of `execute` runs on fuel, one
-- unit for each round: Engine/Termination shows how much is enough.
--
-- Runtime models runtime/contracts.py, runtime/route_profiles.py and of runtime/prima_runtime.py
-- `execute`, the status, outcome, text and errors of `_response_from_execution`, and
-- `_executed_components`. A request becomes an execution context with the metadata that the source
-- writes over the caller's, the engine runs it, and its end becomes the response. The caller's
-- counts are natural numbers. `respond` takes the fuel of the engine: 15 rounds for the longest
-- route, five for each retrieval retry of the budget and nine for each intervention are enough.
--
-- Workflow/Generation models workflow/answer_generation.py: the client's reply and `json.loads`
-- are fields of the generator, an absent key of a dictionary reads as `null`, and the text of the
-- prompt is not modelled. Workflow/Validation models workflow/output_validation.py, and
-- Workflow/Facade of workflow/prima_workflow.py the loading and committing of state, the commit of
-- memory, the enqueueing of maintenance events over Maintenance, and the shaping of the output;
-- the controllers that call planning, affect, retrieval and the world model are not modelled. The
-- notes of a memory repository are their texts.
--
-- Llm models llm/generation_config.py, llm/rate_limiter.py, llm/llm_client.py, `validate` of
-- llm/provider.py and security/output_validator.py. What a provider sends back is a function of
-- the number of the attempt and of the request; the clock is a function of the number of the
-- attempt.
--
-- Memory/Graph models memory/graph/graph_repository.py in memory, with its edges keyed by sorted
-- pairs. The set of a node's neighbours is a list without duplicates in the order of insertion.
-- The search for a path runs on fuel, one unit for each node it takes from the queue: one for each
-- name that is linked to, and one for the source, is enough. Memory/Compression models
-- memory/retrieval/context_compressor.py. Components, weighted neighbourhoods and the mirror of
-- the graph in a vector store are not modelled.
--
-- Uncertainty models uncertainty/execution_gate.py, whose decision the engine reads after the
-- phase EXECUTION_DECISION.
--
-- Tools and Action model tools/ and action/: the policy (action/execution_policy.py), the
-- validator with its sanitizer, the registry, the router, `ToolExecutor.execute`, and
-- `ActionExecutor.execute`, which calls the tool executor for each invocation of a plan. Beside a
-- result stands the list of the invocations that reached a handler. A handler is an argument that
-- returns, raises or is awaited for some time; `fresh` gives the identifiers that the source takes
-- from `uuid4`.
--
-- Reasoning models reasoning/controller.py (`answer`, `_advised_query`, `_synthesize`) with
-- reasoning/stopping_policy.py, reasoning/evidence_integrator.py and reasoning/task_analyzer.py:
-- the bounded search for evidence, on fuel that Reasoning/Termination bounds. The retriever, the
-- synthesizer, the verifier, the generator of needs and the advisor are fields of the controller,
-- as in the source, and the time that has passed is a function of the number of retrieval calls;
-- traces are left out.
--
-- Reflection models reflection/reflection_acceptance.py: whether a reflected label may replace the
-- first one, and the counts of a run over labelled samples as evaluation/runners/dataset_runner.py
-- makes it, for predictions that are not empty. The evidence that the words of a query give for a
-- label is an argument.
--
-- State models state/state_manager.py: the manager in memory, and in State/Persistence the one
-- that writes a file, which is a value that a write replaces as a whole.
--
-- Events models events/: the store, the subscribers and `publish`. A handler is a function of the
-- event that returns an exception's text or none.
--
-- Maintenance models memory/maintenance/background_supervisor.py: calls from outside and the steps
-- of the worker task come one after the other in any order, as asyncio runs them; a call of the
-- handler is one step with its answer as an argument, and a cancellation is possible while it is
-- awaited. `drain` is what the worker does while `flush` waits for the queue, on fuel that
-- Maintenance/Flush bounds.
--
-- Base holds what these share: Boolean tests, lists, dictionaries as association lists without
-- duplicate keys, texts as lists of code points, and Python's values. Tests holds concrete runs.
--
-- Scores are natural numbers of millionths, times natural numbers of microseconds; floating point
-- values that are no number or infinite are left out. Texts are lower-cased and stripped by ASCII.
-- An object that the program only stores is the text that stands for it. The metadata keys that a
-- component reads are record fields. `calls` and the lists of handler calls are kept for the
-- theorems only. Timestamps, execution ids and serializers (`touch`, `to_dict`) are not modelled,
-- nor are operating system errors, concurrent processes, the diagnostics of a response, and the
-- components that call outside models or only measure: the adapters of llm/provider.py, the
-- retrieval of memory/retrieval/, affect/, planning/, the engine of reflection/, world/,
-- benchmarks/ and evaluation/.
pub mod Base
pub mod Llm
pub mod Workflow
pub mod Tools
pub mod Action
pub mod Uncertainty
pub mod Reasoning
pub mod Reflection
pub mod State
pub mod Events
pub mod Maintenance
pub mod Memory
pub mod Runtime
pub mod Tests
