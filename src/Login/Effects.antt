-- ===== src/Login/Effects.antt =====
-- frontend/src/context/AuthContext.jsx: what a login that throws leaves behind.
use hybrid_quantum_cryptogra.Prelude.{
  ◌≡◌, ◌⊎◌, inl, inr, refl, ◌∙◌, Bool, Option, none, some, arith, String,
}
use hybrid_quantum_cryptogra.Js.{Text, Thrown, Result, throw, Result-cases}
use hybrid_quantum_cryptogra.Actions.{
  Action, ◌>>=◌, returns, reads, lift, demand, catches, Keeps, >>=-Keeps, catches-Keeps, Undoes,
  >>=-Undoes, Keeps-Undoes, returns-Keeps, reads-Keeps, lift-Keeps, demand-Keeps,
}
use hybrid_quantum_cryptogra.Session.{
  Login, ServerSession, Reply, answered, refused, unreachable, intercept,
}
use hybrid_quantum_cryptogra.Certificates.{Fields}
use hybrid_quantum_cryptogra.Keystore.Platform.{Browser}
use hybrid_quantum_cryptogra.Keystore.{Records}
use hybrid_quantum_cryptogra.Login.Parts.{Upload, Challenge, Server, Crypto, Device, call, complete}
use hybrid_quantum_cryptogra.Login.Certificate.{
  storing, enroll_from, enroll_given, ensured_key, prove_certificate, proof_of, certificate_proof,
}
use hybrid_quantum_cryptogra.Login.Attempts.{Attempt, by_certificate, by_qr_code, log_in}
use hybrid_quantum_cryptogra.Login.QrCode.{key_available, key_or_enroll, qr_proof}

-- The authentication state is the same, and the token too unless it was dropped.
abbrev pub SameSession : {browser : Browser} → Device browser → Device browser → Type 0
SameSession d d' =
    (d'.client.auth ≡ d.client.auth)
    × ((d'.client.pq_token ≡ none) ⊎ (d'.client.pq_token ≡ d.client.pq_token))

module _ {browser : Browser} where
  same_refl : (d : Device browser) → SameSession d d
  same_refl d = (refl, inr refl)

  same_trans : (a b c : Device browser) → SameSession a b → SameSession b c → SameSession a c
  same_trans a b c (e, inl f) (g, inl h) = (g ∙ e, inl h)
  same_trans a b c (e, inl f) (g, inr h) = (g ∙ e, inl (h ∙ f))
  same_trans a b c (e, inr f) (g, inl h) = (g ∙ e, inl h)
  same_trans a b c (e, inr f) (g, inr h) = (g ∙ e, inr (h ∙ f))

  pub call-Keeps :
      {A : Type 0} (reply : Reply A) → Keeps SameSession (call {browser = browser} reply)
  unfolding call intercept
  call-Keeps (answered a) = record { kept = same_refl }
  call-Keeps (refused status) = record { kept = λ d. ground arith }
  call-Keeps unreachable = record { kept = same_refl }

  storing-Keeps :
      (crypto : Crypto browser) (server : Server) (f : Records browser → Result (Records browser))
      → Keeps SameSession (storing crypto server f)
  unfolding storing
  storing-Keeps crypto server f = record {
    kept = λ d. elim (Result-cases (f d.records)) [
      | inl (records, e) ↦ rw (e, storing) (same_refl d)
      | inr (reason, e) ↦ rw (e, storing) (same_refl d)
    ];
  }

  then_Keeps :
      {A B : Type 0} (m : Action (Device browser) A) (next : A → Action (Device browser) B)
      → Keeps SameSession m
      → ((a : A) → Keeps SameSession (next a))
      → Keeps SameSession (m >>= next)
  then_Keeps m next h k = >>=-Keeps SameSession m next same_trans h k

  caught_Keeps :
      {A : Type 0} (m : Action (Device browser) A) (handler : Thrown → Action (Device browser) A)
      → Keeps SameSession m
      → ((e : Thrown) → Keeps SameSession (handler e))
      → Keeps SameSession (catches m handler)
  caught_Keeps m handler h k = catches-Keeps SameSession m handler same_trans h k

  returned_Keeps : {A : Type 0} (a : A) → Keeps (SameSession {browser = browser}) (returns a)
  returned_Keeps a = returns-Keeps SameSession same_refl a

  read_Keeps :
      {A : Type 0} (f : Device browser → Result A)
      → Keeps (SameSession {browser = browser}) (reads f)
  read_Keeps f = reads-Keeps SameSession same_refl f

  lifted_Keeps : {A : Type 0} (r : Result A) → Keeps (SameSession {browser = browser}) (lift r)
  lifted_Keeps r = lift-Keeps SameSession same_refl r

  demanded_Keeps :
      (passed : Bool) (message : String)
      → Keeps (SameSession {browser = browser}) (demand passed message)
  demanded_Keeps passed message = demand-Keeps SameSession same_refl passed message

  ruleset session_rules = (
    then_Keeps, caught_Keeps, returned_Keeps, read_Keeps, lifted_Keeps, demanded_Keeps, call-Keeps,
    storing-Keeps,
  )

  module _ (crypto : Crypto browser) (server : Server) where
    enroll_from-Keeps :
        (id : Text) (secret : Option Text) (file : Upload)
        → Keeps SameSession (enroll_from crypto server id secret file)
    unfolding enroll_from
    enroll_from-Keeps id secret file = search session_rules

    proof_of-Keeps :
        (id device_id secret : Text) (challenge : Challenge)
        → Keeps SameSession (proof_of crypto server id device_id secret challenge)
    unfolding proof_of
    proof_of-Keeps id device_id secret challenge = search session_rules

    enroll_given-Keeps :
        (id secret : Text) (key_file : Option Upload)
        → Keeps SameSession (enroll_given crypto server id secret key_file)
    unfolding enroll_given
    enroll_given-Keeps id secret none = search session_rules
    enroll_given-Keeps id secret (some file) = search (session_rules, enroll_from-Keeps)

    ensured_key-Keeps :
        (id : Text) (key_file : Option Upload)
        → Keeps SameSession (ensured_key crypto server id key_file)
    unfolding ensured_key
    ensured_key-Keeps id key_file = search session_rules

    key_available-Keeps : (id : Text) → Keeps SameSession (key_available crypto server id)
    unfolding key_available
    key_available-Keeps id = search session_rules

    key_or_enroll-Keeps :
        (id : Text) (key_file : Option Upload) (e : Thrown)
        → Keeps SameSession (key_or_enroll crypto server id key_file e)
    unfolding key_or_enroll
    key_or_enroll-Keeps id none e = search session_rules
    key_or_enroll-Keeps id (some file) e = search (session_rules, enroll_from-Keeps)

    prove_certificate-Keeps :
        (id : Text) (fields : Fields) (key_file : Option Upload) (manual : Text)
        → Keeps SameSession (prove_certificate crypto server id fields key_file manual)
    unfolding prove_certificate
    prove_certificate-Keeps id fields key_file manual =
        search (session_rules, enroll_given-Keeps, ensured_key-Keeps, proof_of-Keeps) depth 12

    certificate_proof-Keeps :
        (file : Upload) (key_file : Option Upload) (manual : Text)
        → Keeps SameSession (certificate_proof crypto server file key_file manual)
    unfolding certificate_proof
    certificate_proof-Keeps file key_file manual =
        search (session_rules, prove_certificate-Keeps) depth 12

    qr_proof-Keeps :
        (id cert_hash : Text) (key_file : Option Upload)
        → Keeps SameSession (qr_proof crypto server id cert_hash key_file)
    unfolding qr_proof
    qr_proof-Keeps id cert_hash key_file =
        search (session_rules, key_or_enroll-Keeps, key_available-Keeps, proof_of-Keeps) depth 12

    complete-Undoes :
        (reply : Reply ServerSession) (session : Login)
        → Undoes (SameSession {browser = browser}) (complete reply session)
    unfolding complete
    complete-Undoes reply session = record { undone = λ d e thrown. cc }

    followed_Undoes :
        {A B : Type 0} (m : Action (Device browser) A) (next : A → Action (Device browser) B)
        → Keeps SameSession m
        → ((a : A) → Undoes SameSession (next a))
        → Undoes SameSession (m >>= next)
    followed_Undoes m next h k = >>=-Undoes SameSession m next same_trans h k

    ruleset login_rules =
        (session_rules, followed_Undoes, complete-Undoes, certificate_proof-Keeps, qr_proof-Keeps)

    log_in-Undoes : (attempt : Attempt) → Undoes SameSession (log_in crypto server attempt)
    unfolding log_in
    log_in-Undoes (by_certificate none key_file manual) = Keeps-Undoes SameSession (lifted_Keeps _)
    log_in-Undoes (by_certificate (some file) key_file manual) = search login_rules
    log_in-Undoes (by_qr_code id cert_hash key_file) = search login_rules

    -- A login that throws, wherever it does, leaves the authentication state as it was. The token is
    -- the same, or it was dropped.
    pub log_in-throw :
        (attempt : Attempt) (d : Device browser) (e : Thrown)
        → (log_in crypto server attempt d).0 ≡ throw e
        → SameSession d (log_in crypto server attempt d).1
    log_in-throw attempt d e thrown = (log_in-Undoes attempt).undone d e thrown
