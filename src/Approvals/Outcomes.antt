-- ===== src/Approvals/Outcomes.antt =====
-- frontend/src/pages/manager/ApproveTransaction/ApproveTransaction.jsx: what holds of the decisions and
-- of the page after them.
use hybrid_quantum_cryptogra.Prelude.{
  ◌≡◌, ◌≢◌, ◌⊎◌, inl, inr, false, Option, none, List, [], ◌∷◌, All, All-append, arith,
}
use hybrid_quantum_cryptogra.Js.{Text, trim, is_empty}
use hybrid_quantum_cryptogra.Approvals.Transactions.{Transaction}
use hybrid_quantum_cryptogra.Approvals.Decisions.{
  Page, Answer, answered, failed, Decision, approve, reject, load_pending_transactions,
  handle_approve, send_rejection, handle_reject, Event, loads, approves, rejects, opens_approval,
  opens_rejection, enters, clears_error, clears_success, handle, run,
}

-- A rejection has a reason that is not blank.
abbrev pub IsReasoned : Decision → Type 0
IsReasoned (approve id) = Unit
IsReasoned (reject id reason) = is_empty (trim reason) ≡ false

handle-IsReasoned : (event : Event) (p : Page) → All IsReasoned (handle event p).1
unfolding handle handle_approve handle_reject send_rejection
handle-IsReasoned (loads pending) p = tt
handle-IsReasoned (approves id (answered _) pending) p = (tt, tt)
handle-IsReasoned (approves id (failed message) pending) p = (tt, tt)
handle-IsReasoned (rejects id (answered _) pending) p = ground arith
handle-IsReasoned (rejects id (failed message) pending) p = ground arith
handle-IsReasoned (opens_approval id) p = tt
handle-IsReasoned (opens_rejection id) p = tt
handle-IsReasoned (enters reason) p = tt
handle-IsReasoned clears_error p = tt
handle-IsReasoned clears_success p = tt

-- Whatever happens on the page of waiting transactions, and whatever the server answers: no rejection
-- is sent without a reason that is not blank.
pub run-IsReasoned : (events : List Event) (p : Page) → All IsReasoned (run events p).1
unfolding run
run-IsReasoned [] p = tt
run-IsReasoned (event ∷ events) p =
    All-append IsReasoned (handle event p).1 (run events (handle event p).0).1
      (handle-IsReasoned event p) (run-IsReasoned events (handle event p).0)

-- No button waits for an answer any more.
pub record IsUnlocked (p : Page) : Type 0 where
  pub idle : p.action_loading ≡ false
  pub loaded : p.loading ≡ false

handle-IsUnlocked : (event : Event) (p : Page) → IsUnlocked p → IsUnlocked (handle event p).0
unfolding handle handle_approve handle_reject send_rejection load_pending_transactions
handle-IsUnlocked (loads (answered txs)) p v = ground arith
handle-IsUnlocked (loads (failed m)) p v = ground arith
handle-IsUnlocked (approves id (answered _) (answered txs)) p v = ground arith
handle-IsUnlocked (rejects id (answered _) (answered txs)) p v = ground arith
handle-IsUnlocked (approves id (answered _) (failed m)) p v = ground arith
handle-IsUnlocked (rejects id (answered _) (failed m)) p v = ground arith
handle-IsUnlocked (approves id (failed m) pending) p v = ground arith
handle-IsUnlocked (rejects id (failed m) pending) p v = ground arith
handle-IsUnlocked (opens_approval id) p v = ground arith
handle-IsUnlocked (opens_rejection id) p v = ground arith
handle-IsUnlocked (enters reason) p v = ground arith
handle-IsUnlocked clears_error p v = ground arith
handle-IsUnlocked clears_success p v = ground arith

-- After any run of events the page of waiting transactions is ready for the next decision, if it was so before: errors of the
-- server lock no button.
run-IsUnlocked : (events : List Event) (p : Page) → IsUnlocked p → IsUnlocked (run events p).0
unfolding run
run-IsUnlocked [] p v = v
run-IsUnlocked (event ∷ events) p v =
    run-IsUnlocked events (handle event p).0 (handle-IsUnlocked event p v)

-- A decision that the server does not accept changes neither the list of waiting transactions nor an
-- open dialog nor the reason that was entered nor a message of success, and shows an error.
pub handle-failed :
    (id : Text) (message : Option Text) (pending : Answer (Option (List Transaction))) (p : Page)
    (event : Event)
    → (event ≡ approves id (failed message) pending) ⊎ (event ≡ rejects id (failed message) pending)
    → let p' = (handle event p).0 in
      (p'.transactions ≡ p.transactions)
      × (p'.show_approve_modal ≡ p.show_approve_modal)
      × (p'.show_reject_modal ≡ p.show_reject_modal)
      × (p'.rejection_reason ≡ p.rejection_reason)
      × (p'.success_message ≡ p.success_message)
      × (p'.error ≢ none)
unfolding handle handle_approve handle_reject send_rejection
handle-failed id message pending p event (inl e) = ground arith
handle-failed id message pending p event (inr e) = ground arith
