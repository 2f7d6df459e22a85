-- ===== src/Login.antt =====
-- frontend/src/context/AuthContext.jsx: the two ways to log in, with a certificate file and with a QR
-- code, over the keystore of frontend/src/utils/platformKeystore.js and the session.
pub mod Parts
pub mod Certificate
pub mod QrCode
pub mod Attempts
pub mod Effects
pub mod Proofs
pub mod Resumption
pub mod Form
pub mod Landing
pub mod Leaving
