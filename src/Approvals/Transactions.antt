-- ===== src/Approvals/Transactions.antt =====
-- What the server sends for a transaction, as
-- frontend/src/pages/manager/ApproveTransaction/ApproveTransaction.jsx reads it. An amount, a score
-- and a time of creation are whole numbers.
use hybrid_quantum_cryptogra.Prelude.{ℕ, Option}
use hybrid_quantum_cryptogra.Js.{Text}

pub record Risk : Type 0 where
  pub level : Option Text
  pub score : Option ℕ

pub record Transaction : Type 0 where
  pub id : Option Text
  pub from_account : Option Text
  pub to_account : Option Text
  pub purpose : Option Text
  pub amount : ℕ
  pub created_at : ℕ
  pub risk : Option Risk
