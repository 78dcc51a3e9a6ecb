-- ===== src/Pipeline/Operation/Termination.antt =====
-- The completion of an operation ends.
use azure_iot_dev.Prelude.{
  ℕ, zero, suc, ◌<◌, ◌≡◌, refl, Bool, true, false, Option, none, List, [], ◌∷◌, ◌++◌, arith, length,
  Bool-cases, inl, inr,
}
use azure_iot_dev.Errors.{Error}
use azure_iot_dev.Pipeline.Operation.{
  Operation, Outcome, returned, raised, out_of_fuel, Action, halt, add, finish, throw, Method,
  add_callback, halt_completion, begin_completion, act, run_actions, end_completion,
  fail_completion, trigger, loop_round, completion_loop, complete,
}

-- The callback does not complete the operation itself.
abbrev pub completes_nothing : List Action → Bool
completes_nothing [] = true
completes_nothing (finish error ∷ rest) = false
completes_nothing (_ ∷ rest) = completes_nothing rest

abbrev pub has_ended : Outcome → Bool
has_ended out_of_fuel = false
has_ended _ = true

-- What a callback leaves: it has ended, and the operation is completing only if it was, with the
-- callbacks that it had.
record IsCalm (op : Operation) (result : Outcome × Operation) : Type 0 where
  ended : has_ended result.0 ≡ true
  same_stack : result.1.completing ≡ true → result.1.callback_stack ≡ op.callback_stack
  was_completing : result.1.completing ≡ true → op.completing ≡ true

actions-IsCalm :
    (recur : Option Error → Method) (actions : List Action) (op : Operation)
    → completes_nothing actions ≡ true
    → IsCalm op (run_actions recur actions op)
unfolding run_actions act add_callback halt_completion
actions-IsCalm recur [] op h = record {
  ended = refl;
  same_stack = λ c. refl;
  was_completing = λ c. c;
}
actions-IsCalm recur (halt ∷ rest) op h = elim (Bool-cases op.completing) [
  | inl on ↦
      let later = actions-IsCalm recur rest (record op { completing = false; error = none }) h in
      ground (arith, on, later)
  | inr off ↦ ground (arith, off)
]
actions-IsCalm recur (add callback ∷ rest) op h =
    let more : Operation = record op { callback_stack = callback ∷ op.callback_stack } in
    let later = actions-IsCalm recur rest more h in ground (arith, later)
actions-IsCalm recur (throw error ∷ rest) op h = record {
  ended = refl;
  same_stack = λ c. refl;
  was_completing = λ c. c;
}
actions-IsCalm recur (finish error ∷ rest) op h = ground (arith, h)

fail-has_ended : (op : Operation) → has_ended (fail_completion op).0 ≡ true
unfolding fail_completion
fail-has_ended op = refl

end-has_ended : (op : Operation) → has_ended (end_completion op).0 ≡ true
unfolding end_completion
end-has_ended op = refl

module _ (program : ℕ → Option Error → List Action) where
  -- The stack fits in the fuel while the operation is completing.
  abbrev Fits : ℕ → Operation → Type 0
  Fits fuel op = op.completing ≡ true → length op.callback_stack < fuel

  abbrev Ends : (Option Error → Method) → Option Error → ℕ → Type 0
  Ends recur error fuel =
      (op : Operation) → 0 < fuel → Fits fuel op → has_ended (recur error op).0 ≡ true

  resume-has_ended :
      (recur : Option Error → Method) (error : Option Error) (fuel : ℕ) (op : Operation)
      (result : Outcome × Operation)
      → IsCalm op result
      → length op.callback_stack < fuel
      → Ends recur error fuel
      → let resumed : Outcome × Operation = elim result.0 [
        | returned ↦ recur error result.1
        | raised e ↦ fail_completion result.1
        | out_of_fuel ↦ (out_of_fuel, result.1)
      ] in
        has_ended resumed.0 ≡ true
  resume-has_ended recur error fuel op (returned, after) calm fits ends =
      let some_left : 0 < fuel = omega (arith, fits) in
      ends after some_left (λ on. let stays = calm.same_stack on in rw stays fits)
  resume-has_ended recur error fuel op (raised e, after) calm fits ends = fail-has_ended after
  resume-has_ended recur error fuel op (out_of_fuel, after) calm fits ends = calm.ended

  trigger-has_ended :
      (recur : Option Error → Method) (error : Option Error) (fuel callback : ℕ) (rest : List ℕ)
      (op : Operation)
      → completes_nothing (program callback error) ≡ true
      → length rest < fuel
      → Ends recur error fuel
      → has_ended (trigger program recur error callback rest op).0 ≡ true
  unfolding trigger
  trigger-has_ended recur error fuel callback rest op quiet fits ends =
      let popped : Operation = record op {
        callback_stack = rest;
        calls = op.calls ++ (callback, error) ∷ [];
      } in
      resume-has_ended recur error fuel popped
        (run_actions (begin_completion recur) (program callback error) popped)
        (actions-IsCalm (begin_completion recur) (program callback error) popped quiet) fits ends

  round-has_ended :
      (recur : Option Error → Method) (error : Option Error) (fuel : ℕ) (stack : List ℕ)
      (op : Operation)
      → ((c : ℕ) → completes_nothing (program c error) ≡ true)
      → (op.completing ≡ true → length stack < suc fuel)
      → Ends recur error fuel
      → has_ended (loop_round program recur error stack op).0 ≡ true
  unfolding loop_round
  round-has_ended recur error fuel [] op quiet fits ends = end-has_ended op
  round-has_ended recur error fuel (callback ∷ rest) op quiet fits ends =
      elim (Bool-cases op.completing) [
        | inl on ↦
            let shorter : length rest < fuel = omega (arith, fits on) in
            let triggered =
              trigger-has_ended recur error fuel callback rest op (quiet callback) shorter ends in
            let failed = fail-has_ended op in ground (arith, on, triggered, failed)
        | inr off ↦ (let ended = end-has_ended op in ground (arith, off, ended))
      ]

  loop-has_ended :
      (error : Option Error) (fuel : ℕ)
      → ((c : ℕ) → completes_nothing (program c error) ≡ true)
      → Ends (completion_loop program fuel) error fuel
  unfolding completion_loop
  loop-has_ended error zero quiet op some_left fits = absurd (omega (arith, some_left))
  loop-has_ended error (suc fuel) quiet op some_left fits =
      round-has_ended (completion_loop program fuel) error fuel op.callback_stack op quiet fits
        (loop-has_ended error fuel quiet)

-- If no callback completes the operation that it is called for, then `complete` ends, whatever
-- the callbacks do besides: return, halt the completion, add callbacks or raise. It takes no more
-- rounds than the operation has callbacks, and the one in which the loop sees that none is left.
pub complete_terminates :
    (program : ℕ → Option Error → List Action) (fuel : ℕ) (error : Option Error) (op : Operation)
    → ((c : ℕ) → completes_nothing (program c error) ≡ true)
    → length op.callback_stack < fuel
    → has_ended (complete program fuel error op).0 ≡ true
unfolding complete begin_completion
complete_terminates program fuel error op quiet enough =
    let some_left : 0 < fuel = omega (arith, enough) in
    let started : Operation = record op { completing = true; error = error } in
    let looped = loop-has_ended program error fuel quiet started some_left (λ on. enough) in
    ground (arith, looped)
