-- ===== src/Lib.antt =====
-- The frontend of a banking application with hybrid quantum-safe certificates (JavaScript, React):
-- who is signed in, which screens and links a role gets, and how the browser keeps the device keys.
--
-- A login leaves a token and a user in `localStorage`; `syncSessionFromServer` brings the
-- authentication state in line with the server; `ProtectedRoute` and the permission gates read that
-- state; the table of routes puts the screens behind `ProtectedRoute`; the sidebar offers the links
-- of the navigation configuration, which lead to these routes. A manager's page filters the
-- transactions that wait for approval, and sends the decisions; a customer's page checks a payment and
-- sends it after a confirmation. The keystore holds the keys that a login signs with; the signup and
-- the renewal of a certificate make them. Pages whose requests overlap (Accounts, Kyc, Audits,
-- Payments) are worlds in which answers come in in any order.
--
-- Which file models which part (paths from the repository's root, `src/` being `frontend/src/`):
--   Roles           frontend/src/utils/roleUtils.js (getDashboardPathByRole, isRoleAllowed, …)
--   Sorting         what the pages use of sorting and filtering arrays
--   RoleContext     frontend/src/context/RoleContext.jsx
--   Rbac            frontend/src/services/rbacService.js (hasPermission, getRoleLevel, …)
--   PermissionGate  frontend/src/components/common/PermissionGate.jsx (the gates and the hooks)
--   Session         frontend/src/context/AuthContext.jsx (resetAuthState, syncSessionFromServer, the
--                   end of both logins, logout) and frontend/src/services/api.js (the interceptors)
--   Certificates    frontend/src/context/AuthContext.jsx (parseCertificateText, the identifiers)
--   Login           frontend/src/context/AuthContext.jsx (loginWithCertificate, loginWithQrCode), and in
--                   Login/Form and Login/Leaving frontend/src/components/auth/Login.jsx and Logout.jsx
--   Actions         the calls of Login, which change a state and may throw
--   ProtectedRoute  frontend/src/components/common/ProtectedRoute.jsx
--   Navigation      frontend/src/config/navigationConfig.js, the tables in Navigation/Config
--   Sidebar         frontend/src/components/common/RoleBasedSidebar.jsx
--   Breadcrumbs     frontend/src/utils/navigationHelper.js and, of AdminNavbar.jsx in
--                   frontend/src/components/common, the page that the bar names
--   Location        frontend/src/utils/geolocation.js
--   Routes          frontend/src/routes/ComprehensiveRoutes.jsx, the tables in Routes/Table
--   Keystore        frontend/src/utils/platformKeystore.js, signing in Keystore/Signing and the import
--                   of a private key in Keystore/Pem
--   Pagination      frontend/src/components/common/Pagination.jsx, and the slice of a page
--   History         frontend/src/pages/customer/TransactionHistory/TransactionHistory.jsx
--   Accounts        frontend/src/pages/manager/ManagerCustomers/ManagerCustomers.jsx
--   Kyc             frontend/src/pages/manager/KYCVerification/KYCVerification.jsx
--   Audits          frontend/src/pages/auditorClerk/AuditTransactions/AuditTransactions.jsx
--   Answers         what these pages share: answers, waiting requests and exported tables
--   Approvals       frontend/src/pages/manager/ApproveTransaction/ApproveTransaction.jsx
--   Signup          frontend/src/components/auth/CustomerSignup.jsx, the new key pair in
--                   Keystore/Generation
--   Renewal         frontend/src/pages/customer/CertificateRequest/CertificateRequest.jsx, the file with
--                   the private key in Renewal/Lines and Renewal/Files
--   Payments        frontend/src/pages/customer/CreateTransaction/CreateTransaction.jsx and the purpose
--                   that frontend/src/components/customer/TransactionConfirmModal.jsx shows
--   Beneficiaries   frontend/src/pages/customer/BeneficiaryManagement/BeneficiaryManagement.jsx,
--                   frontend/src/components/customer/BeneficiaryFormModal.jsx and
--                   frontend/src/components/admin/DeleteConfirmModal.jsx
--   Dates           frontend/src/utils/dateFormatter.js (formatRelativeTime)
--   Validators      frontend/src/utils/validators.js (validateCertificateFile, …)
-- A function has the name of the source in snake case. Prelude holds the shared notation and lemmas,
-- Js what the source uses of JavaScript: texts, exceptions, property lookup. Tests holds runs at
-- concrete inputs.
--
-- State is passed on explicitly: `Client` is the state of `AuthProvider`, the two keys of
-- `localStorage` and the page that was loaded by `window.location`; `Records` is the object store of
-- the keystore. A call that waits for the server is two functions, one up to the request and one from
-- the answer on, and Session/Steps lets anything happen in between. An exception is a `throw` of the
-- type `Result`. A property lookup finds what every object inherits, too. A text is a list of
-- UTF-16 code units; `toLowerCase` is written out for ASCII and for the two other characters whose
-- lower case holds an ASCII letter; the names of roles and permissions are written in ASCII.
--
-- Redirects are followed on fuel (`settle`), one unit for each screen that is tried. A fuel of 3 allows
-- two redirects: one to the login page or to a dashboard, and one from there.
--
-- A login is an `Action` on the state of the session and of the keystore: what a step has changed stays
-- changed when a later one throws, and `catches` is a `try` with its handler.
--
-- A number is finite and stands for its multiple of the smallest positive one (`Js`), so comparisons
-- are exact; the value of a number input is such a number, or missing.
--
-- Parameters: React Router picks the route for a path (`Router`), WebCrypto, the text encoder and
-- base64 belong to the browser (`Browser`, and `Crypto` for the digests and signatures), with their
-- documented laws; `Server` gives the answers to a login's requests. What the server answers is an
-- argument, the text of the engine's own errors is one where a new error takes it over, and so is the normal form of a text in Location. A test instance of each stands in Tests.
--
-- Not modelled: the server (Python); the markup and styles of the pages; the service files, which
-- send one request a function; in the keystore the opening and upgrading of the
-- database, whose failure is an argument; the pages of managers, auditors and administrators that
-- no line above names.
pub mod Prelude
pub mod Js
pub mod Renewal
pub mod Roles
pub mod RoleContext
pub mod Rbac
pub mod PermissionGate
pub mod Session
pub mod ProtectedRoute
pub mod Navigation
pub mod Routes
pub mod Keystore
pub mod Pagination
pub mod Dates
pub mod Validators
pub mod Sorting
pub mod Approvals
pub mod Actions
pub mod Certificates
pub mod Login
pub mod Signup
pub mod Answers
pub mod Audits
pub mod Accounts
pub mod Kyc
pub mod Payments
pub mod History
pub mod Beneficiaries
pub mod Sidebar
pub mod Breadcrumbs
pub mod Location
mod Tests
