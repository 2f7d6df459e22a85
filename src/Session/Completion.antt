-- ===== src/Session/Completion.antt =====
-- What a login leaves behind when the synchronization after it fails.
use hybrid_quantum_cryptogra.Prelude.{◌≡◌, false, none, arith}
use hybrid_quantum_cryptogra.Session.{
  ServerSession, Client, Login, Reply, answered, refused, unreachable, complete_login,
}

-- The answers that carry no session of a user.
abbrev pub Rejects : Reply ServerSession → Type 0
Rejects (answered response) = response.user ≡ none
Rejects (refused status) = Unit
Rejects unreachable = Unit

-- If the synchronization that follows a login finds no session, the login returns the user all the
-- same, and leaves nobody signed in, with no token.
pub complete_login-rejected :
    (session : Login) (reply : Reply ServerSession) (c : Client)
    → Rejects reply
    → let done = complete_login session reply c in
      (done.1 ≡ session.user)
      × ((done.0).is_authenticated ≡ false)
      × ((done.0).user ≡ none)
      × ((done.0).pq_token ≡ none)
      × ((done.0).pq_user ≡ none)
unfolding complete_login
complete_login-rejected session (answered response) c h = ground arith
complete_login-rejected session (refused status) c h = ground arith
complete_login-rejected session unreachable c h = ground arith
