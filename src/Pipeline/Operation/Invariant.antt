-- ===== src/Pipeline/Operation/Invariant.antt =====
-- No call of a method leaves an operation both completed and completing.
use azure_iot_dev.Prelude.{
  ℕ, zero, suc, ◌≡◌, Bool, true, false, Option, List, [], ◌∷◌, arith, ◌||◌, ◌++◌, refl, if_ind, ◌⊎◌,
  inl, inr, Bool-cases,
}
use azure_iot_dev.Errors.{Error}
use azure_iot_dev.Pipeline.Operation.{
  Operation, new_operation, Outcome, Action, halt, add, finish, throw, Method, act,
  begin_completion, run_actions, end_completion, fail_completion, trigger, loop_round,
  completion_loop, complete,
}

-- A completed operation is not completing and has no callback left.
pub record IsSound (op : Operation) : Type 0 where
  pub not_both : op.completed ≡ true → op.completing ≡ false
  pub emptied : op.completed ≡ true → op.callback_stack ≡ []

settled :
    (op : Operation)
    → IsSound op
    → (op.completed ≡ false) ⊎ (op.completing ≡ false × op.callback_stack ≡ [])
settled op h = elim (Bool-cases op.completed) [
  | inl done ↦ inr (h.not_both done, h.emptied done)
  | inr going ↦ inl going
]

abbrev pub Keeps : Method → Type 0
Keeps m = (op : Operation) → IsSound op → IsSound (m op).1

incomplete-IsSound : (op : Operation) → op.completed ≡ false → IsSound op
incomplete-IsSound op h = record { not_both = λ c. cc; emptied = λ c. cc }

idle_incomplete : (a b : Bool) → (a || b) ≡ false → a ≡ false
idle_incomplete a b h = ground arith

abbrev After : Outcome × Operation → Type 0
After result = IsSound result.1

begin_completion-Keeps :
    (loop : Option Error → Method) (error : Option Error)
    → ((e : Option Error) → Keeps (loop e))
    → Keeps (begin_completion loop error)
unfolding begin_completion
begin_completion-Keeps loop error keeps op h =
    if_ind After (op.completed || op.completing) (λ _. h)
      λ idle. keeps error _ (incomplete-IsSound _ (idle_incomplete op.completed op.completing idle))

act-Keeps :
    (loop : Option Error → Method) (a : Action)
    → ((e : Option Error) → Keeps (loop e))
    → Keeps (act loop a)
unfolding act
act-Keeps loop halt keeps op h = ground arith
act-Keeps loop (add callback) keeps op h = ground arith
act-Keeps loop (finish error) keeps op h = keeps error op h
act-Keeps loop (throw error) keeps op h = h

end_completion-Keeps :
    (op : Operation) → op.callback_stack ≡ [] → IsSound op → IsSound (end_completion op).1
unfolding end_completion
end_completion-Keeps op empty h = ground arith

halted : (op : Operation) → op.completing ≡ false → IsSound op → IsSound (end_completion op).1
unfolding end_completion
halted op idle h = ground arith

fail_completion-Keeps : Keeps fail_completion
unfolding fail_completion
fail_completion-Keeps op h = ground arith

run_actions-Keeps :
    (loop : Option Error → Method)
    → ((e : Option Error) → Keeps (loop e))
    → (actions : List Action) → Keeps (run_actions loop actions)
unfolding run_actions
run_actions-Keeps loop keeps [] op h = h
run_actions-Keeps loop keeps (a ∷ rest) op h =
    let kept = act-Keeps loop a keeps op h in
    let later = run_actions-Keeps loop keeps rest (act loop a op).1 kept in
    ground (arith, kept, later)

module _ (program : ℕ → Option Error → List Action) where
  trigger-Keeps :
      (recur : Option Error → Method) (error : Option Error) (callback : ℕ) (rest : List ℕ)
      → ((e : Option Error) → Keeps (recur e))
      → (op : Operation) → op.completed ≡ false
      → IsSound (trigger program recur error callback rest op).1
  unfolding trigger
  trigger-Keeps recur error callback rest keeps op going =
      let popped = record op {
        callback_stack = rest;
        calls = op.calls ++ (callback, error) ∷ [];
      } in
      let ran =
        run_actions-Keeps (begin_completion recur) (λ e. begin_completion-Keeps recur e keeps)
          (program callback error) popped (incomplete-IsSound popped going) in
      let after = (run_actions (begin_completion recur) (program callback error) popped).1 in
      ground (arith, ran, keeps error after ran, fail_completion-Keeps after ran)

  loop_round-Keeps :
      (recur : Option Error → Method) (error : Option Error) (stack : List ℕ)
      → ((e : Option Error) → Keeps (recur e))
      → (op : Operation) → op.callback_stack ≡ stack
      → IsSound op
      → IsSound (loop_round program recur error stack op).1
  unfolding loop_round
  loop_round-Keeps recur error [] keeps op e h = end_completion-Keeps op e h
  loop_round-Keeps recur error (callback ∷ rest) keeps op e h =
      if_ind After op.completing
        (λ busy.
          if_ind After op.completed (λ _. fail_completion-Keeps op h)
            (trigger-Keeps recur error callback rest keeps op))
        (λ idle. halted op idle h)

  completion_loop-Keeps :
      (fuel : ℕ) (error : Option Error) → Keeps (completion_loop program fuel error)
  unfolding completion_loop
  completion_loop-Keeps zero error op h = h
  completion_loop-Keeps (suc fuel) error op h =
      loop_round-Keeps (completion_loop program fuel) error op.callback_stack
        (completion_loop-Keeps fuel) op refl h

  complete-Keeps : (fuel : ℕ) (error : Option Error) → Keeps (complete program fuel error)
  unfolding complete
  complete-Keeps fuel error =
      begin_completion-Keeps (completion_loop program fuel) error (completion_loop-Keeps fuel)

  -- What the holder of an operation does with it: calls of its methods, where an exception that
  -- one of them raises does not keep the next from being made.
  unfoldable pub session : ℕ → List Action → Operation → Operation
  unfolding act
  session fuel [] op = op
  session fuel (a ∷ rest) op = session fuel rest (act (complete program fuel) a op).1

  session-Keeps :
      (fuel : ℕ) (calls : List Action) (op : Operation)
      → IsSound op
      → IsSound (session fuel calls op)
  unfolding session
  session-Keeps fuel [] op h = h
  session-Keeps fuel (a ∷ rest) op h =
      session-Keeps fuel rest _ (act-Keeps (complete program fuel) a (complete-Keeps fuel) op h)

  -- After any calls of its methods, and whatever its callbacks do to it, an operation is either
  -- not completed, or it is not completing and has no callback left.
  pub session-IsSound :
      (fuel : ℕ) (calls : List Action) (callback : ℕ)
      → let op = session fuel calls (new_operation callback) in
        (op.completed ≡ false) ⊎ (op.completing ≡ false × op.callback_stack ≡ [])
  unfolding new_operation
  session-IsSound fuel calls callback =
      settled _ (session-Keeps fuel calls _ (incomplete-IsSound _ refl))
