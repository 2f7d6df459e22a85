-- ===== src/Session/Consistency.antt =====
-- The state that each operation of AuthContext.jsx leaves behind.
use hybrid_quantum_cryptogra.Prelude.{◌≡◌, Bool, false, none, arith}
use hybrid_quantum_cryptogra.Session.{
  ServerSession, Client, Login, Reply, sync_begin, sync_finish, accept_login, intercept,
}

-- A client that is not signed in has no user, no session and no verified certificate.
pub record IsConsistent (c : Client) : Type 0 where
  pub unready : c.is_authenticated ≡ false → c.certificate_ready ≡ false
  pub unnamed : c.is_authenticated ≡ false → c.user ≡ none
  pub unheld : c.is_authenticated ≡ false → c.session_info ≡ none

pub sync_begin-IsConsistent :
    (silent : Bool) (c : Client) → IsConsistent c → IsConsistent (sync_begin silent c).0
unfolding sync_begin
sync_begin-IsConsistent silent c v = ground arith

pub sync_finish-IsConsistent :
    (silent : Bool) (reply : Reply ServerSession) (c : Client)
    → IsConsistent (sync_finish silent reply c).0
unfolding sync_finish
sync_finish-IsConsistent silent reply c = ground arith

pub accept_login-IsConsistent :
    (session : Login) (c : Client) → IsConsistent (accept_login session c)
unfolding accept_login
accept_login-IsConsistent session c = ground arith

pub intercept-IsConsistent :
    {A : Type 0} (reply : Reply A) (c : Client) → IsConsistent c → IsConsistent (intercept reply c)
unfolding intercept
intercept-IsConsistent reply c v = ground arith
