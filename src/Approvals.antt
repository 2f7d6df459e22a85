-- ===== src/Approvals.antt =====
-- frontend/src/pages/manager/ApproveTransaction/ApproveTransaction.jsx: the transactions that wait for
-- a manager's decision, how the page filters and sorts them, and what the decisions do.
pub mod Transactions
pub mod Filters
pub mod Criteria
pub mod Filtering
pub mod Decisions
pub mod Outcomes
pub mod Masking
