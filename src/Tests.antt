-- ===== src/Tests.antt =====
-- The theorems at concrete inputs, and tests of the definitions by evaluation.
mod Access
mod Audits
mod Beneficiaries
mod Browsing
mod History
mod Keys
mod Payments
mod Login
mod Sidebar
mod Desks
mod Renewal
mod Signup
mod Places
mod Crumbs
mod Texts
mod Queue
