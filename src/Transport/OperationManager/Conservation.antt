-- ===== src/Transport/OperationManager/Conservation.antt =====
-- Every callback is called once or is still pending.
use azure_iot_dev.Prelude.{
  ℕ, ◌+◌, ◌≡◌, refl, Option, none, some, List, [], ◌∷◌, ◌++◌, arith, ◌==◌, if◌then◌else◌,
}
use azure_iot_dev.Transport.OperationManager.{
  Pending, lookup, insert, delete, Call, completed, cancelled, Manager, initial, trigger,
  establish_operation, complete_found, cancellations, Request, establish, complete, cancel_all,
  step, run,
}

-- 1 if the callback is the one that is counted.
abbrev hit : ℕ → Option ℕ → ℕ
hit i none = 0
hit i (some callback) = if callback == i then 1 else 0

abbrev pub pending_count : ℕ → Pending → ℕ
pending_count i [] = 0
pending_count i ((mid, callback) ∷ rest) = hit i callback + pending_count i rest

abbrev in_call : ℕ → Call → ℕ
in_call i (completed mid callback) = hit i (some callback)
in_call i (cancelled mid callback) = hit i (some callback)

abbrev pub called : ℕ → List Call → ℕ
called i [] = 0
called i (c ∷ rest) = in_call i c + called i rest

abbrev in_request : ℕ → Request → ℕ
in_request i (establish mid callback) = hit i callback
in_request i _ = 0

abbrev pub established : ℕ → List Request → ℕ
established i [] = 0
established i (r ∷ rest) = in_request i r + established i rest

-- The mid of a new operation is not pending already.
abbrev IsFresh : Request → Manager → Type 0
IsFresh (establish mid callback) m = lookup mid m.pending_operation_callbacks ≡ none
IsFresh _ m = Unit

abbrev pub AllFresh : List Request → Manager → Type 0
AllFresh [] m = Unit
AllFresh (r ∷ rest) m = IsFresh r m × AllFresh rest (step r m)

called-append : (i : ℕ) (xs ys : List Call) → called i (xs ++ ys) ≡ called i xs + called i ys
called-append i [] ys = omega arith
called-append i (x ∷ xs) ys = omega (arith, called-append i xs ys)

pending_count-insert :
    (i mid : ℕ) (callback : Option ℕ) (p : Pending)
    → lookup mid p ≡ none
    → pending_count i (insert mid callback p) ≡ pending_count i p + hit i callback
unfolding lookup insert
pending_count-insert i mid callback [] h = omega arith
pending_count-insert i mid callback ((m, old) ∷ p) h =
    ground (arith, pending_count-insert i mid callback p)

pending_count-delete :
    (i mid : ℕ) (callback : Option ℕ) (p : Pending)
    → lookup mid p ≡ some callback
    → pending_count i (delete mid p) + hit i callback ≡ pending_count i p
unfolding lookup delete
pending_count-delete i mid callback [] h = ground arith
pending_count-delete i mid callback ((m, old) ∷ p) h =
    ground (arith, pending_count-delete i mid callback p)

called-trigger :
    (i mid : ℕ) (callback : Option ℕ) → called i (trigger mid callback) ≡ hit i callback
called-trigger i mid none = refl
called-trigger i mid (some callback) = omega arith

called-cancellations : (i : ℕ) (p : Pending) → called i (cancellations p) ≡ pending_count i p
unfolding cancellations
called-cancellations i [] = refl
called-cancellations i ((mid, none) ∷ p) = omega (arith, called-cancellations i p)
called-cancellations i ((mid, some callback) ∷ p) = omega (arith, called-cancellations i p)

module _ (i : ℕ) where
  abbrev total : Manager → ℕ
  total m = called i m.calls + pending_count i m.pending_operation_callbacks

  total-establish :
      (mid : ℕ) (callback : Option ℕ) (m : Manager)
      → lookup mid m.pending_operation_callbacks ≡ none
      → total (establish_operation mid callback m) ≡ total m + hit i callback
  unfolding establish_operation
  total-establish mid callback m fresh = ground (
    arith,
    pending_count-insert i mid callback m.pending_operation_callbacks fresh,
    called-append i m.calls (trigger mid callback),
    called-trigger i mid callback,
  )

  total_complete :
      (mid : ℕ) (found : Option (Option ℕ)) (m : Manager)
      → lookup mid m.pending_operation_callbacks ≡ found
      → total (complete_found mid found m) ≡ total m
  total_complete mid none m e = refl
  total_complete mid (some callback) m e = omega (
    arith,
    pending_count-delete i mid callback m.pending_operation_callbacks e,
    called-append i m.calls (trigger mid callback),
    called-trigger i mid callback,
  )

  total-step :
      (r : Request) (m : Manager) → IsFresh r m → total (step r m) ≡ total m + in_request i r
  unfolding step
  total-step (establish mid callback) m fresh = total-establish mid callback m fresh
  total-step (complete mid) m fresh =
      omega (arith, total_complete mid (lookup mid m.pending_operation_callbacks) m refl)
  total-step cancel_all m fresh = omega (
    arith,
    called-append i m.calls (cancellations m.pending_operation_callbacks),
    called-cancellations i m.pending_operation_callbacks,
  )

  total-run :
      (rs : List Request) (m : Manager)
      → AllFresh rs m
      → total (run rs m) ≡ total m + established i rs
  unfolding run
  total-run [] m fresh = omega arith
  total-run (r ∷ rs) m fresh =
      omega (arith, total-run rs (step r m) fresh.1, total-step r m fresh.0)

  -- If no mid is established while it is pending, then whatever the order of requests, responses
  -- and cancellations, each callback has been called, or is pending, exactly as often in all as it
  -- was given.
  pub callbacks_conserved :
      (rs : List Request)
      → AllFresh rs initial
      → called i (run rs initial).calls
          + pending_count i (run rs initial).pending_operation_callbacks
        ≡ established i rs
  unfolding initial
  callbacks_conserved rs fresh = omega (arith, total-run rs initial fresh)
