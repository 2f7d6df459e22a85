-- ===== src/Payments/Racing.antt =====
-- frontend/src/pages/customer/CreateTransaction/CreateTransaction.jsx: an answer that comes in under the
-- dialog.
use hybrid_quantum_cryptogra.Prelude.{Option, none, some, [], ◌∷◌}
use hybrid_quantum_cryptogra.Js.{lit, pos}
use hybrid_quantum_cryptogra.Payments.{Beneficiary}
use hybrid_quantum_cryptogra.Payments.Handlers.{Answer, Overview, answered}

overview : Answer (Option Overview)
overview = answered (
    some (record {
      accounts = some (record { account_number = lit "1"; balance = some (pos 1) } ∷ []);
      account_balance = none;
    }))

known : Beneficiary
known = record {
  id = lit "1";
  account_number = lit "2";
  beneficiary_name = lit "Ann";
  bank_name = lit "Bank";
}
