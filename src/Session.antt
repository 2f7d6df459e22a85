-- ===== src/Session.antt =====
-- frontend/src/context/AuthContext.jsx: the authentication state, its synchronization with the
-- server and what a login leaves behind; frontend/src/services/api.js: the token that a request
-- carries and the reaction to a 401 answer.
--
-- `localStorage` is the two keys that the source uses; the JSON text under `pq_user` is kept as the
-- user that it stands for. A call that awaits the server is two functions, one up to the request and
-- one from the answer on, since other code runs in between.
pub mod Consistency
pub mod Steps
pub mod Completion
use hybrid_quantum_cryptogra.Prelude.{
  ℕ, Bool, true, false, not, ◌&&◌, Option, none, some, ◌++◌, if◌then◌else◌, ◌==◌,
}
use hybrid_quantum_cryptogra.Js.{Text, lit, is_empty, Thrown, error, Result, ok, throw}
use hybrid_quantum_cryptogra.Roles.{User, truthy}

pub record Certificate : Type 0 where
  pub certificate_id : Option Text

pub record Flags : Type 0 where
  pub reauth_required : Bool

-- The answer of `/auth/verify-session`.
pub record ServerSession : Type 0 where
  pub user : Option User
  pub certificate : Option Certificate
  pub session : Option Flags

pub record Auth : Type 0 where
  pub is_authenticated : Bool
  pub user : Option User
  pub session_info : Option ServerSession
  pub certificate_ready : Bool
  pub is_verifying_session : Bool

-- The browser's side: the state of `AuthProvider`, `localStorage`, and the page that the code last
-- loaded by setting `window.location.href`.
pub record Client : Type 0 where
  pub auth : Auth
  pub open auth use *
  pub pq_token : Option Text
  pub pq_user : Option (Option User)
  pub location : Option Text

-- The state with which a page starts: the `useState` calls.
unfoldable pub initial_auth : Auth
initial_auth = record {
  is_authenticated = false;
  user = none;
  session_info = none;
  certificate_ready = false;
  is_verifying_session = true;
}

-- Loading a page keeps `localStorage` alone.
unfoldable pub load_page : Client → Client
unfolding initial_auth
load_page c = record c { auth = initial_auth; location = none }

unfoldable pub reset_auth_state : Client → Client
reset_auth_state c = record c {
  auth = record {
    is_authenticated = false;
    user = none;
    session_info = none;
    certificate_ready = false;
    is_verifying_session = false;
  };
  pq_token = none;
  pq_user = none;
}

unfoldable pub set_is_verifying_session : Bool → Client → Client
set_is_verifying_session verifying c = record c {
  auth = record (c.auth) { is_verifying_session = verifying };
}

-- The request interceptor: the `Authorization` header, if any.
unfoldable pub authorization_header : Client → Option Text
unfolding truthy
authorization_header c = elim (truthy c.pq_token) [
  | none ↦ none
  | some token ↦ some (lit "Bearer " ++ token)
]

-- What a request comes to.
pub data Reply (A : Type 0) : Type 0 where
  answered : A → Reply A
  refused : (status : ℕ) → Reply A
  unreachable : Reply A

-- The response interceptor: what it does to the client, and the result that it passes on.
unfoldable pub intercept : {A : Type 0} → Reply A → Client → Client
intercept (answered a) c = c
intercept (refused status) c =
    if status == 401
    then record c { pq_token = none; pq_user = none; location = some (lit "/login") }
    else c
intercept unreachable c = c

unfoldable pub result_of : {A : Type 0} → Reply A → Result A
result_of (answered a) = ok a
result_of (refused status) = throw (error (lit "Request failed"))
result_of unreachable = throw (error (lit "Network Error"))

-- `syncSessionFromServer` up to the request: with no token the state is reset and the call is over.
unfoldable pub sync_begin : Bool → Client → Client × Bool
unfolding set_is_verifying_session reset_auth_state truthy
sync_begin silent c =
    let started = if silent then c else set_is_verifying_session true c in
    elim (truthy started.pq_token) [
      | none ↦ (
        (if silent
            then reset_auth_state started
            else set_is_verifying_session false (reset_auth_state started)),
        false,
      )
      | some token ↦ (started, true)
    ]

reauth_required : Option Flags → Bool
reauth_required none = false
reauth_required (some flags) = flags.reauth_required

has_certificate : Option Certificate → Bool
has_certificate none = false
has_certificate (some certificate) = elim (truthy certificate.certificate_id) [
  | none ↦ false
  | some id ↦ true
]

unfoldable pub is_ready : ServerSession → Bool
unfolding reauth_required has_certificate truthy
is_ready response = has_certificate response.certificate && not (reauth_required response.session)

accept_session : ServerSession → User → Client → Client
unfolding is_ready
accept_session response session_user c = record c {
  auth = record (c.auth) {
    is_authenticated = true;
    user = some session_user;
    session_info = some response;
    certificate_ready = is_ready response;
  };
  pq_user = some (some session_user);
}

-- The body of the `try` block from the answer on, and its `catch` block.
answer_session : Result ServerSession → Client → Client × Result (Option ServerSession)
unfolding accept_session reset_auth_state
answer_session (throw e) c = (reset_auth_state c, throw e)
answer_session (ok response) c = elim (response.user) [
  | none ↦ (reset_auth_state c, ok none)
  | some session_user ↦ (accept_session response session_user c, ok (some response))
]

-- `syncSessionFromServer` from the answer on, with its `finally` block.
unfoldable pub sync_finish :
    Bool → Reply ServerSession → Client → Client × Result (Option ServerSession)
unfolding answer_session intercept result_of set_is_verifying_session
sync_finish silent reply c =
    let (c', result) = answer_session (result_of reply) (intercept reply c) in
    ((if silent then c' else set_is_verifying_session false c'), result)

-- `syncSessionFromServer` where nothing else runs while it waits.
unfoldable pub sync_session_from_server :
    Bool → Reply ServerSession → Client → Client × Result (Option ServerSession)
unfolding sync_begin sync_finish
sync_session_from_server silent reply c =
    let (c', asks) = sync_begin silent c in
    if asks then sync_finish silent reply c' else (c', ok none)

-- The answer of a login: `{ token, user }`. A missing token is stored as the text "undefined".
pub record Login : Type 0 where
  pub token : Option Text
  pub user : Option User

token_text : Option Text → Text
token_text none = lit "undefined"
token_text (some token) = token

-- What `loginWithCertificate` and `loginWithQrCode` do with the answer of the server, up to the
-- silent synchronization that follows.
unfoldable pub accept_login : Login → Client → Client
unfolding token_text
accept_login session c = record c {
  auth = record (c.auth) { user = session.user; is_authenticated = true; certificate_ready = true };
  pq_token = some (token_text session.token);
  pq_user = some session.user;
}

-- The end of both login functions: the login returns the user, whatever the synchronization says.
unfoldable pub complete_login : Login → Reply ServerSession → Client → Client × Option User
unfolding accept_login sync_session_from_server
complete_login session reply c =
    ((sync_session_from_server true reply (accept_login session c)).0, session.user)

unfoldable pub logout : Client → Client
unfolding reset_auth_state
logout c = reset_auth_state c
