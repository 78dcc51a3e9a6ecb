-- ===== src/Pipeline/AutoConnect/Connected.antt =====
-- No operation is lost, and none that needs a connection goes down without one.
use azure_iot_dev.Prelude.{
  ℕ, ◌+◌, ◌≡◌, refl, Bool, true, not, ◌&&◌, ◌||◌, Option, none, some, List, [], ◌∷◌, ◌++◌, arith,
  ◌==◌, if◌then◌else◌,
}
use azure_iot_dev.Errors.{Error}
use azure_iot_dev.Pipeline.Ops.{Op}
use azure_iot_dev.Pipeline.AutoConnect.{
  Output, sent_down, sent_connect, completed, Stage, initial, run_op, find, without, on_found,
  on_connect_op_complete, Stimulus, arrive, connect_done, set_connected, step, run,
}

abbrev hit : ℕ → Op → ℕ
hit i op = if op.id == i then 1 else 0

abbrev in_output : ℕ → Output → ℕ
in_output i (sent_down op up) = hit i op
in_output i (sent_connect op) = 0
in_output i (completed op error) = hit i op

-- How often an operation was sent down or completed, waits, and has arrived.
abbrev pub handled : ℕ → List Output → ℕ
handled i [] = 0
handled i (o ∷ rest) = in_output i o + handled i rest

abbrev pub waiting : ℕ → List Op → ℕ
waiting i [] = 0
waiting i (op ∷ rest) = hit i op + waiting i rest

abbrev arrives : ℕ → Stimulus → ℕ
arrives i (arrive op) = hit i op
arrives i _ = 0

abbrev pub arrivals : ℕ → List Stimulus → ℕ
arrivals i [] = 0
arrivals i (e ∷ rest) = arrives i e + arrivals i rest

-- An operation that needs a connection is sent down with one.
abbrev pub is_connected : Output → Bool
is_connected (sent_down op up) = not op.needs_connection || up
is_connected _ = true

abbrev pub all_connected : List Output → Bool
all_connected [] = true
all_connected (o ∷ rest) = is_connected o && all_connected rest

handled-snoc :
    (i : ℕ) (os : List Output) (o : Output)
    → handled i (os ++ o ∷ []) ≡ handled i os + in_output i o
handled-snoc i [] o = omega arith
handled-snoc i (x ∷ os) o = omega (arith, handled-snoc i os o)

all_connected-snoc :
    (os : List Output) (o : Output)
    → all_connected (os ++ o ∷ []) ≡ (all_connected os && is_connected o)
all_connected-snoc [] o = ground arith
all_connected-snoc (x ∷ os) o = ground (arith, all_connected-snoc os o)

waiting-without :
    (i id : ℕ) (op : Op) (ops : List Op)
    → find id ops ≡ some op
    → waiting i (without id ops) + hit i op ≡ waiting i ops
unfolding find without
waiting-without i id op [] h = ground arith
waiting-without i id op (p ∷ ops) h = ground (arith, waiting-without i id op ops)

module _ (i : ℕ) where
  abbrev total : Stage → ℕ
  total s = handled i s.outputs + waiting i s.connecting

  -- The configuration is kept, and the outputs are as they should be.
  record IsFine (s : Stage) : Type 0 where
    automatic : s.auto_connect ≡ true
    connected_all : all_connected s.outputs ≡ true

  run_op-total : (op : Op) (s : Stage) → total (run_op op s) ≡ total s + hit i op
  unfolding run_op
  run_op-total op s = ground (
    arith,
    handled-snoc i s.outputs (sent_down op s.connected),
    handled-snoc i s.outputs (sent_connect op),
  )

  run_op-IsFine : (op : Op) (s : Stage) → IsFine s → IsFine (run_op op s)
  unfolding run_op
  run_op-IsFine op s h = ground (
    arith,
    all_connected-snoc s.outputs (sent_down op s.connected),
    all_connected-snoc s.outputs (sent_connect op),
  )

  found-total :
      (id : ℕ) (error : Option Error) (found : Option Op) (s : Stage)
      → find id s.connecting ≡ found
      → total (on_found id error found s) ≡ total s
  found-total id error none s e = refl
  found-total id none (some op) s e = omega (
    arith,
    run_op-total op (record s { connecting = without id s.connecting }),
    waiting-without i id op s.connecting e,
  )
  found-total id (some error) (some op) s e =
      omega (
        arith,
        handled-snoc i s.outputs (completed op error),
        waiting-without i id op s.connecting e,
      )

  found-IsFine :
      (id : ℕ) (error : Option Error) (found : Option Op) (s : Stage)
      → IsFine s
      → IsFine (on_found id error found s)
  found-IsFine id error none s h = h
  found-IsFine id none (some op) s h = run_op-IsFine op _ (ground arith)
  found-IsFine id (some error) (some op) s h =
      ground (arith, all_connected-snoc s.outputs (completed op error))

  step-total : (e : Stimulus) (s : Stage) → total (step e s) ≡ total s + arrives i e
  unfolding step on_connect_op_complete
  step-total (arrive op) s = run_op-total op s
  step-total (connect_done id error) s =
      omega (arith, found-total id error (find id s.connecting) s refl)
  step-total (set_connected b) s = omega arith

  step-IsFine : (e : Stimulus) (s : Stage) → IsFine s → IsFine (step e s)
  unfolding step on_connect_op_complete
  step-IsFine (arrive op) s h = run_op-IsFine op s h
  step-IsFine (connect_done id error) s h = found-IsFine id error (find id s.connecting) s h
  step-IsFine (set_connected b) s h = ground arith

  run-total : (es : List Stimulus) (s : Stage) → total (run es s) ≡ total s + arrivals i es
  unfolding run
  run-total [] s = omega arith
  run-total (e ∷ es) s = omega (arith, run-total es (step e s), step-total e s)

  run-IsFine : (es : List Stimulus) (s : Stage) → IsFine s → IsFine (run es s)
  unfolding run
  run-IsFine [] s h = h
  run-IsFine (e ∷ es) s h = run-IsFine es (step e s) (step-IsFine e s h)

  -- With automatic connection, whatever happens: each operation has been sent down or completed,
  -- or waits for the connection made for it, exactly as often in all as it has arrived; and those
  -- sent down that need a connection were sent while there was one.
  pub auto_connected :
      (es : List Stimulus)
      → (handled i (run es (initial true)).outputs + waiting i (run es (initial true)).connecting
          ≡ arrivals i es)
        × (all_connected (run es (initial true)).outputs ≡ true)
  unfolding initial
  auto_connected es =
      let fine = run-IsFine es (initial true) (ground arith) in
      (omega (arith, run-total es (initial true)), fine.connected_all)
