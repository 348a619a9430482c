-- ===== src/Task/Outputs.antt =====
-- deriveExtractedOutputs (internal/task/service.go): the texts that a trace extracted.
use mathlib.Core.List.{append_assoc, append-nil}
use browser_use.Base.{
  sym, ℕ, zero, suc, ◌+◌, ◌<◌, String, ◌≡◌, refl, ◌∙◌, inl, inr, Bool, true, false, not, Option,
  none, some, List, [], ◌∷◌, ◌++◌, map, arith, leb, if◌then◌else◌, Bool-cases, length, take, keep,
  length-append, is_empty, trim_space, str_eq, Dict, lookup, insert, lookup-insert,
}
use browser_use.Task.Types.{StepTrace}

abbrev pub is_some {ℓ} : {A : Type ℓ} → Option A → Bool
is_some none = false
is_some (some _) = true

-- The loop, with the variables `seen` and `outputs`; it breaks at 20 outputs.
unfoldable pub derive_loop : Dict (Unit {0}) → List String → List StepTrace → List String
derive_loop seen outputs [] = outputs
derive_loop seen outputs (step ∷ trace) =
    let value = trim_space step.output_text in
    let skipped = derive_loop seen outputs trace in
    let added = derive_loop (insert value tt seen) (outputs ++ value ∷ []) trace in
    if is_empty value
    then skipped
    else if is_some (lookup value seen)
    then skipped
    else if leb 20 (length (outputs ++ value ∷ []))
    then outputs ++ value ∷ []
    else added

-- Go's nil and its empty slice are both the empty list.
unfoldable pub derive_extracted_outputs : List StepTrace → List String
unfolding derive_loop
derive_extracted_outputs trace = derive_loop [] [] trace

-- The specification: the trimmed texts that are not empty, each at its first occurrence.
unfoldable pub texts : List StepTrace → List String
texts trace = keep (λ v. not (is_empty v)) (map (λ (s : StepTrace). trim_space s.output_text) trace)

unfoldable pub elem : String → List String → Bool
elem k [] = false
elem k (x ∷ xs) = if str_eq x k then true else elem k xs

unfoldable pub first_uses : List String → List String → List String
first_uses done [] = []
first_uses done (x ∷ xs) =
    let fresh = x ∷ first_uses (x ∷ done) xs in if elem x done then first_uses done xs else fresh

abbrev Agree : Dict (Unit {0}) → List String → Type 0
Agree seen done = (k : String) → is_some (lookup k seen) ≡ elem k done

Agree-insert :
    (v : String) (seen : Dict (Unit {0})) (done : List String)
    → Agree seen done
    → Agree (insert v tt seen) (v ∷ done)
unfolding elem
Agree-insert v seen done h k = rw (lookup-insert v k tt seen) (ground (arith, h k))

-- The text `v` is new: it is appended, and the loop goes on unless that makes 20.
derive_step :
    (v : String) (outputs rest fresh : List String) (room : ℕ)
    → length outputs + suc room ≡ 20
    → (0 < room → rest ≡ (outputs ++ v ∷ []) ++ take room fresh)
    → (if leb 20 (length (outputs ++ v ∷ [])) then outputs ++ v ∷ [] else rest)
      ≡ outputs ++ take (suc room) (v ∷ fresh)
derive_step v outputs rest fresh zero b h = rw (length-append outputs (v ∷ [])) (ground arith)
derive_step v outputs rest fresh (suc room) b h = ground (
  arith,
  length-append outputs (v ∷ []),
  h (omega arith),
  append_assoc outputs (v ∷ []) (take (suc room) fresh),
)

derive_loop-first_uses :
    (seen : Dict (Unit {0})) (done outputs : List String) (room : ℕ) (trace : List StepTrace)
    → Agree seen done
    → length outputs + room ≡ 20
    → 0 < room
    → derive_loop seen outputs trace ≡ outputs ++ take room (first_uses done (texts trace))
unfolding derive_loop first_uses texts keep
derive_loop-first_uses seen done outputs zero trace h b q = absurd (omega arith)
derive_loop-first_uses seen done outputs (suc room) [] h b q = sym (append-nil outputs)
derive_loop-first_uses seen done outputs (suc room) (s ∷ trace) h b q =
    let v = trim_space s.output_text in
    elim (Bool-cases (is_empty v)) [
      | inl e ↦ rw e (derive_loop-first_uses seen done outputs (suc room) trace h b q)
      | inr n ↦ elim (Bool-cases (elem v done)) [
        | inl e ↦
            rw (n, h v ∙ e, e) (derive_loop-first_uses seen done outputs (suc room) trace h b q)
        | inr k ↦
            rw (n, h v ∙ k, k)
              (derive_step v outputs (derive_loop (insert v tt seen) (outputs ++ v ∷ []) trace)
                (first_uses (v ∷ done) (texts trace)) room b
                λ more.
                  derive_loop-first_uses (insert v tt seen) (v ∷ done) (outputs ++ v ∷ []) room
                    trace (Agree-insert v seen done h)
                    (omega (arith, length-append outputs (v ∷ []))) more)
      ]
    ]

-- The extracted outputs of a trace are the first 20 of its distinct output texts: each step's text
-- with the surrounding space trimmed, the empty ones left out, each text at its first occurrence only.
pub derive_extracted_outputs_lem :
    (trace : List StepTrace)
    → derive_extracted_outputs trace ≡ take 20 (first_uses [] (texts trace))
unfolding derive_extracted_outputs elem lookup
derive_extracted_outputs_lem trace =
    derive_loop-first_uses [] [] [] 20 trace (λ k. refl) refl (omega arith)
