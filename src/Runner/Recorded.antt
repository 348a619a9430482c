-- ===== src/Runner/Recorded.antt =====
-- What is kept of a node's trace (internal/taskrunner/runner.go, mapTaskTraceWithArtifacts).
use Prim.Native.String.{◌++◌}
use browser_use.Base.{
  padded, ℕ, ◌+◌, String, ◌≡◌, refl, ap, ◌⊎◌, inl, inr, true, false, some, List, [], ◌∷◌, All, map,
  arith, Bool-cases, is_empty, trim_space, Result, ok,
}
use browser_use.Task.Types
use browser_use.Runner.Trace.{
  max_int, StepTrace, Artifacts, persist_step, map_trace_loop, map_task_trace_with_artifacts,
}

abbrev texts_of : List StepTrace → List String
texts_of trace = map (λ (s : StepTrace). s.output_text) trace

abbrev pub stored_texts : List Types.StepTrace → List String
stored_texts trace = map (λ (s : Types.StepTrace). s.output_text) trace

-- A step is not kept with an inline screenshot unless it came with a URL of its own.
abbrev pub IsLight : Types.StepTrace → Type 0
IsLight s = (is_empty s.screenshot_base64 ≡ true) ⊎ (is_empty s.screenshot_artifact_url ≡ false)

light_step :
    (save : String → String → Result String) (task_id : String) (s : StepTrace) (mapped : ℕ)
    → ((t raw : String) → (url : String) × (save t raw ≡ ok url))
    → (is_empty (persist_step (some save) task_id s mapped).0 ≡ true)
      ⊎ (is_empty (persist_step (some save) task_id s mapped).1 ≡ false)
unfolding persist_step
light_step save task_id s mapped works =
    elim (Bool-cases (is_empty (trim_space s.screenshot_base64))) [
      | inl e ↦ inl (ground arith)
      | inr e ↦ elim (Bool-cases (is_empty (trim_space s.screenshot_artifact_url))) [
        | inr f ↦ inr (ground arith)
        | inl f ↦
            let (url, done) =
              works (trim_space task_id ++ "-step-" ++ padded 3 (max_int s.index (mapped + 1)))
                (trim_space s.screenshot_base64) in
            inl (ground arith)
      ]
    ]

loop-IsLight :
    (save : String → String → Result String) (task_id : String) (mapped : ℕ)
    (trace : List StepTrace)
    → ((t raw : String) → (url : String) × (save t raw ≡ ok url))
    → All IsLight (map_trace_loop (some save) task_id mapped trace)
unfolding map_trace_loop
loop-IsLight save task_id mapped [] works = tt
loop-IsLight save task_id mapped (s ∷ trace) works =
    (light_step save task_id s mapped works, loop-IsLight save task_id (mapped + 1) trace works)

loop_texts :
    (artifacts : Artifacts) (task_id : String) (mapped : ℕ) (trace : List StepTrace)
    → stored_texts (map_trace_loop artifacts task_id mapped trace) ≡ texts_of trace
unfolding map_trace_loop
loop_texts artifacts task_id mapped [] = refl
loop_texts artifacts task_id mapped (s ∷ trace) =
    ap (◌∷◌ s.output_text) (loop_texts artifacts task_id (mapped + 1) trace)

-- What is kept of a node's trace has the steps' output texts, in order, one for each step, whatever
-- becomes of the screenshots; and with an artifact store that saves whatever it is given, each step is
-- kept without an inline screenshot or with a URL that is not empty.
pub map_task_trace_with_artifacts_lem :
    (artifacts : Artifacts) (save : String → String → Result String) (task_id : String)
    (trace : List StepTrace)
    → ((t raw : String) → (url : String) × (save t raw ≡ ok url))
    → (stored_texts (map_task_trace_with_artifacts artifacts task_id trace)
        ≡ map (λ (s : StepTrace). s.output_text) trace)
      × All IsLight (map_task_trace_with_artifacts (some save) task_id trace)
unfolding map_task_trace_with_artifacts
map_task_trace_with_artifacts_lem artifacts save task_id trace works =
    (loop_texts artifacts task_id 0 trace, loop-IsLight save task_id 0 trace works)
