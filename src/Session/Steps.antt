-- ===== src/Session/Steps.antt =====
-- The authentication state over time: every way in which AuthContext.jsx and api.js change it, in
-- any order, with any number of synchronizations that wait for their answer.
use hybrid_quantum_cryptogra.Prelude.{
  ◌≡◌, refl, Bool, true, false, none, some, List, [], ◌∷◌, ◌++◌, arith,
}
use hybrid_quantum_cryptogra.Roles.{User, truthy}
use hybrid_quantum_cryptogra.Session.{
  ServerSession, Client, Login, Reply, answered, load_page, intercept, initial_auth, sync_begin,
  sync_finish, accept_login, logout, authorization_header, reset_auth_state,
}
use hybrid_quantum_cryptogra.Session.Consistency.{
  IsConsistent, accept_login-IsConsistent, intercept-IsConsistent, sync_begin-IsConsistent,
  sync_finish-IsConsistent,
}

-- A page of the browser, and for each synchronization that waits whether it is a silent one.
pub record Page : Type 0 where
  pub client : Client
  pub pending : List Bool

unfoldable pub await_session : Bool → Page → Client × Bool → Page
await_session silent p (c, true) = record { client = c; pending = silent ∷ p.pending }
await_session silent p (c, false) = record { client = c; pending = p.pending }

pub data Step : Page → Page → Type 0 where
  begin : (p : Page) (silent : Bool) → Step p (await_session silent p (sync_begin silent p.client))
  answer :
      (p : Page) (silent : Bool) (before later : List Bool) (reply : Reply ServerSession)
      → p.pending ≡ before ++ silent ∷ later
      → Step p
          (record { client = (sync_finish silent reply p.client).0; pending = before ++ later })
  -- Another request of the page is answered; what it brings does not matter here.
  request :
      (p : Page) (reply : Reply Unit) → Step p (record p { client = intercept reply p.client })
  sign_in :
      (p : Page) (session : Login) → Step p (record p { client = accept_login session p.client })
  sign_out : (p : Page) → Step p (record p { client = logout p.client })
  load : (p : Page) → Step p (record { client = load_page p.client; pending = [] })

pub data Reach (p : Page) : Page → Type 0 where
  here : Reach p p
  next : {q r : Page} → Reach p q → Step q r → Reach p r

await_session-IsConsistent :
    (silent : Bool) (p : Page) (r : Client × Bool)
    → IsConsistent r.0
    → IsConsistent (await_session silent p r).client
unfolding await_session
await_session-IsConsistent silent p (c, true) v = v
await_session-IsConsistent silent p (c, false) v = v

Step-IsConsistent : {p q : Page} → Step p q → IsConsistent p.client → IsConsistent q.client
unfolding logout reset_auth_state load_page initial_auth
Step-IsConsistent (begin p silent) v =
    await_session-IsConsistent silent p _ (sync_begin-IsConsistent silent p.client v)
Step-IsConsistent (answer p silent before later reply e) v =
    sync_finish-IsConsistent silent reply p.client
Step-IsConsistent (request p reply) v = intercept-IsConsistent reply p.client v
Step-IsConsistent (sign_in p session) v = accept_login-IsConsistent session p.client
Step-IsConsistent (sign_out p) v = ground arith
Step-IsConsistent (load p) v = ground arith

-- Whatever happens on a page, and in whatever order the answers come in: a client that is not signed
-- in shows no user, holds no session and counts as having no verified certificate.
pub Reach-IsConsistent : {p q : Page} → IsConsistent p.client → Reach p q → IsConsistent q.client
Reach-IsConsistent v here = v
Reach-IsConsistent v (next r s) = Step-IsConsistent s (Reach-IsConsistent v r)

-- The steps of a run, without those that sign in.
abbrev pub SignsIn : {p q : Page} → Step p q → Type 0
SignsIn (begin p silent) = ⊥
SignsIn (answer p silent before later reply e) = ⊥
SignsIn (request p reply) = ⊥
SignsIn (sign_in p session) = Unit
SignsIn (sign_out p) = ⊥
SignsIn (load p) = ⊥

abbrev pub NeverSignsIn : {p q : Page} → Reach p q → Type 0
NeverSignsIn here = Unit
NeverSignsIn (next r s) = NeverSignsIn r × ¬ SignsIn s

await_session-token :
    (silent : Bool) (p : Page) (r : Client × Bool)
    → (r.0).pq_token ≡ none
    → (await_session silent p r).client.pq_token ≡ none
unfolding await_session
await_session-token silent p (c, true) v = v
await_session-token silent p (c, false) v = v

Step-token :
    {p q : Page} (s : Step p q) → ¬ SignsIn s → p.client.pq_token ≡ none → q.client.pq_token ≡ none
unfolding sync_begin sync_finish intercept logout reset_auth_state load_page
Step-token (begin p silent) no_login v = await_session-token silent p _ (ground arith)
Step-token (answer p silent before later reply e) no_login v = ground arith
Step-token (request p reply) no_login v = ground arith
Step-token (sign_in p session) no_login v = absurd (no_login tt)
Step-token (sign_out p) no_login v = refl
Step-token (load p) no_login v = v

cleared : (c : Client) → (logout c).pq_token ≡ none
unfolding logout reset_auth_state
cleared c = refl

-- After a logout no request carries an `Authorization` header until somebody signs in: not after a
-- page is loaded again, and not when an answer to an earlier synchronization comes in.
pub logout-authorization_header :
    (p : Page) {q : Page} (r : Reach (record p { client = logout p.client }) q)
    → NeverSignsIn r
    → authorization_header q.client ≡ none
unfolding authorization_header truthy
logout-authorization_header p r quiet = rw (stays r quiet)
  where
    stays :
        {q : Page} (r : Reach (record p { client = logout p.client }) q)
        → NeverSignsIn r
        → q.client.pq_token ≡ none
    stays here quiet = cleared p.client
    stays (next r s) (quiet, no_login) = Step-token s no_login (stays r quiet)

-- A synchronization that is answered after the logout, by a session with a user, signs the user
-- interface in again, with no token in `localStorage`.
pub logout-sync_finish :
    (silent : Bool) (response : ServerSession) (u : User) (c : Client)
    → response.user ≡ some u
    → let c' = (sync_finish silent (answered response) (logout c)).0 in
      (c'.is_authenticated ≡ true) × (c'.user ≡ some u) × (c'.pq_token ≡ none)
unfolding sync_finish logout reset_auth_state
logout-sync_finish silent response u c e = ground arith
