-- ===== src/Approvals/Decisions.antt =====
-- frontend/src/pages/manager/ApproveTransaction/ApproveTransaction.jsx: the state of the page, and what
-- a decision on a transaction does. The calls of the server are its answers, given as arguments; a
-- handler is one function, and nothing else is taken to run while it waits.
use mathlib.Core.Option
use hybrid_quantum_cryptogra.Prelude.{
  Bool, false, Option, none, some, List, [], ◌∷◌, ◌++◌, if◌then◌else◌, String,
}
use hybrid_quantum_cryptogra.Js.{Text, lit, trim, is_empty}
use hybrid_quantum_cryptogra.Roles.{truthy}
use hybrid_quantum_cryptogra.Approvals.Transactions.{Transaction}

pub record Page : Type 0 where
  pub transactions : List Transaction
  pub loading : Bool
  pub error : Option Text
  pub action_loading : Bool
  pub show_reject_modal : Option Text
  pub show_approve_modal : Option Text
  pub rejection_reason : Text
  pub success_message : Option Text

-- What a call of the server comes to; a failure may bring a message.
pub data Answer (A : Type 0) : Type 0 where
  answered : A → Answer A
  failed : (message : Option Text) → Answer A

-- What `decideOnTransaction` sends.
pub data Decision : Type 0 where
  approve : (id : Text) → Decision
  reject : (id : Text) (reason : Text) → Decision

-- `err?.response?.data?.message || fallback`
message_or : Option Text → String → Text
unfolding truthy
message_or message fallback = Option.get_or (truthy message) (lit fallback)

-- `data || []`
list_or_empty : Option (List Transaction) → List Transaction
list_or_empty none = []
list_or_empty (some txs) = txs

unfoldable pub load_pending_transactions : Answer (Option (List Transaction)) → Page → Page
unfolding list_or_empty message_or
load_pending_transactions (answered txs) p = record p {
  transactions = list_or_empty txs;
  error = none;
  loading = false;
}
load_pending_transactions (failed message) p = record p {
  error = some (message_or message "Failed to load pending transactions");
  loading = false;
}

-- The page afterwards and the decision that was sent; `pending` is the answer to the reload.
unfoldable pub handle_approve :
    Text
    → Answer (Unit {0})
    → (pending : Answer (Option (List Transaction))) → Page
    → Page × List Decision
unfolding load_pending_transactions message_or
handle_approve id (answered _) pending p =
    let done = record p {
      success_message = some (lit "Transaction approved successfully");
      show_approve_modal = none;
    } in
    (record (load_pending_transactions pending done) { action_loading = false }, approve id ∷ [])
handle_approve id (failed message) pending p = (
  record p {
    error = some (message_or message "Failed to approve transaction");
    action_loading = false;
  },
  approve id ∷ [],
)

unfoldable pub send_rejection :
    Text
    → Answer (Unit {0})
    → (pending : Answer (Option (List Transaction))) → Page
    → Page × List Decision
unfolding load_pending_transactions message_or
send_rejection id (answered _) pending p =
    let done = record p {
      success_message = some (lit "Transaction rejected successfully");
      show_reject_modal = none;
      rejection_reason = [];
    } in
    (
      record (load_pending_transactions pending done) { action_loading = false },
      reject id p.rejection_reason ∷ [],
    )
send_rejection id (failed message) pending p = (
  record p {
    error = some (message_or message "Failed to reject transaction");
    action_loading = false;
  },
  reject id p.rejection_reason ∷ [],
)

unfoldable pub handle_reject :
    Text
    → Answer (Unit {0})
    → (pending : Answer (Option (List Transaction))) → Page
    → Page × List Decision
unfolding send_rejection is_empty trim
handle_reject id reply pending p =
    if is_empty (trim p.rejection_reason)
    then (record p { error = some (lit "Rejection reason is mandatory") }, [])
    else send_rejection id reply pending p

-- What happens on the page, with the answers that come in.
pub data Event : Type 0 where
  loads : Answer (Option (List Transaction)) → Event
  approves rejects : (id : Text) → Answer (Unit {0}) → Answer (Option (List Transaction)) → Event
  opens_approval opens_rejection : (id : Option Text) → Event
  enters : (reason : Text) → Event
  clears_error clears_success : Event

unfoldable pub handle : Event → Page → Page × List Decision
unfolding load_pending_transactions handle_approve handle_reject
handle (loads pending) p = (load_pending_transactions pending p, [])
handle (approves id reply pending) p = handle_approve id reply pending p
handle (rejects id reply pending) p = handle_reject id reply pending p
handle (opens_approval id) p = (record p { show_approve_modal = id }, [])
handle (opens_rejection id) p = (record p { show_reject_modal = id }, [])
handle (enters reason) p = (record p { rejection_reason = reason }, [])
handle clears_error p = (record p { error = none }, [])
handle clears_success p = (record p { success_message = none }, [])

-- A run of events: the page at the end, and all that was sent.
unfoldable pub run : List Event → Page → Page × List Decision
unfolding handle
run [] p = (p, [])
run (event ∷ events) p =
    let (p', sent) = handle event p in let (p'', later) = run events p' in (p'', sent ++ later)
