-- ===== src/Transport/OperationManager/Disjoint.antt =====
-- A mid is never both pending and unknown.
use azure_iot_dev.Prelude.{
  ℕ, ◌≡◌, refl, true, false, Option, none, some, List, [], ◌∷◌, arith, ◌==◌, ◌⊎◌, inl,
}
use azure_iot_dev.Transport.OperationManager.{
  Pending, lookup, insert, delete, has, record_mid, forget, Manager, initial, establish_operation,
  complete_found, complete_operation, cancel_all_operations, Request, establish, complete,
  cancel_all, step, run,
}

abbrev IsApart : ℕ → Manager → Type 0
IsApart k m =
    (lookup k m.pending_operation_callbacks ≡ none)
    ⊎ (has k m.unknown_operation_completions ≡ false)

lookup-insert_other :
    (k mid : ℕ) (callback : Option ℕ) (p : Pending)
    → (mid == k) ≡ false
    → lookup k (insert mid callback p) ≡ lookup k p
unfolding lookup insert
lookup-insert_other k mid callback [] h = ground arith
lookup-insert_other k mid callback ((m, old) ∷ p) h =
    ground (arith, lookup-insert_other k mid callback p h)

lookup-delete : (k mid : ℕ) (p : Pending) → lookup k p ≡ none → lookup k (delete mid p) ≡ none
unfolding lookup delete
lookup-delete k mid [] h = h
lookup-delete k mid ((m, old) ∷ p) h = ground (arith, lookup-delete k mid p)

has-record_mid_other :
    (k mid : ℕ) (mids : List ℕ) → (mid == k) ≡ false → has k (record_mid mid mids) ≡ has k mids
unfolding has record_mid
has-record_mid_other k mid [] h = ground arith
has-record_mid_other k mid (m ∷ mids) h = ground (arith, has-record_mid_other k mid mids h)

has-forget : (k mid : ℕ) (mids : List ℕ) → has k mids ≡ false → has k (forget mid mids) ≡ false
unfolding has forget
has-forget k mid [] h = h
has-forget k mid (m ∷ mids) h = ground (arith, has-forget k mid mids)

same_has : (k mid : ℕ) (mids : List ℕ) → (mid == k) ≡ true → has mid mids ≡ has k mids
unfolding has
same_has k mid [] h = refl
same_has k mid (m ∷ mids) h = ground (arith, same_has k mid mids h)

same_lookup : (k mid : ℕ) (p : Pending) → (mid == k) ≡ true → lookup mid p ≡ lookup k p
unfolding lookup
same_lookup k mid [] h = refl
same_lookup k mid ((m, old) ∷ p) h = ground (arith, same_lookup k mid p h)

establish-IsApart :
    (k mid : ℕ) (callback : Option ℕ) (m : Manager)
    → IsApart k m
    → IsApart k (establish_operation mid callback m)
unfolding establish_operation
establish-IsApart k mid callback m h = ground (
  arith,
  has-forget k mid m.unknown_operation_completions,
  lookup-insert_other k mid callback m.pending_operation_callbacks,
  same_has k mid m.unknown_operation_completions,
)

complete-IsApart :
    (k mid : ℕ) (found : Option (Option ℕ)) (m : Manager)
    → lookup mid m.pending_operation_callbacks ≡ found
    → IsApart k m
    → IsApart k (complete_found mid found m)
complete-IsApart k mid none m e h = ground (
  arith,
  has-record_mid_other k mid m.unknown_operation_completions,
  same_lookup k mid m.pending_operation_callbacks,
)
complete-IsApart k mid (some callback) m e h =
    ground (arith, lookup-delete k mid m.pending_operation_callbacks)

step-IsApart : (k : ℕ) (r : Request) (m : Manager) → IsApart k m → IsApart k (step r m)
unfolding step complete_operation cancel_all_operations lookup
step-IsApart k (establish mid callback) m h = establish-IsApart k mid callback m h
step-IsApart k (complete mid) m h =
    complete-IsApart k mid (lookup mid m.pending_operation_callbacks) m refl h
step-IsApart k cancel_all m h = inl refl

run-IsApart : (k : ℕ) (rs : List Request) (m : Manager) → IsApart k m → IsApart k (run rs m)
unfolding run
run-IsApart k [] m h = h
run-IsApart k (r ∷ rs) m h = run-IsApart k rs (step r m) (step-IsApart k r m h)

-- Whatever the order of requests, responses and cancellations, no mid is both pending and recorded
-- as an unknown response.
pub pending_or_unknown :
    (mid : ℕ) (rs : List Request)
    → (lookup mid (run rs initial).pending_operation_callbacks ≡ none)
      ⊎ (has mid (run rs initial).unknown_operation_completions ≡ false)
unfolding initial lookup
pending_or_unknown mid rs = run-IsApart mid rs initial (inl refl)
