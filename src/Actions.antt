-- ===== src/Actions.antt =====
-- Calls that change a state and may throw. What was done before a throw stays done.
use hybrid_quantum_cryptogra.Prelude.{false, ap, ◌∙◌, true, ◌≡◌, Bool, refl, if◌then◌else◌, String}
use hybrid_quantum_cryptogra.Js.{Thrown, error, Result, ok, throw, throw-ne-ok, lit}

abbrev pub Action : Type 0 → Type 0 → Type 0
Action S A = S → Result A × S

module _ {S : Type 0} where
  -- What follows a call that has come to an end.
  abbrev pub resume : {A B : Type 0} → Result A × S → (A → Action S B) → Result B × S
  resume (ok a, s) next = next a s
  resume (throw e, s) next = (throw e, s)

  abbrev pub rescue : {A : Type 0} → Result A × S → (Thrown → Action S A) → Result A × S
  rescue (ok a, s) handler = (ok a, s)
  rescue (throw e, s) handler = handler e s

  infixl 5 ◌>>=◌ ◌>>◌
  unfoldable pub ◌>>=◌ : {A B : Type 0} → Action S A → (A → Action S B) → Action S B
  ◌>>=◌ call next s = resume (call s) next

  abbrev pub ◌>>◌ : {A B : Type 0} → Action S A → Action S B → Action S B
  call >> next = call >>= λ _. next

  unfoldable pub returns : {A : Type 0} → A → Action S A
  returns a s = (ok a, s)

  -- A computation that reads the state, and one that needs none.
  unfoldable pub reads : {A : Type 0} → (S → Result A) → Action S A
  reads f s = (f s, s)

  unfoldable pub lift : {A : Type 0} → Result A → Action S A
  lift r s = (r, s)

  unfoldable pub demand : Bool → String → Action S (Unit {0})
  demand passed message s = ((if passed then ok tt else throw (error (lit message))), s)

  -- `try { call } catch (e) { handler }`
  unfoldable pub catches : {A : Type 0} → Action S A → (Thrown → Action S A) → Action S A
  catches call handler s = rescue (call s) handler

  -- A relation between the states before and after that every way through a call respects.
  pub record Keeps {A : Type 0} (R : S → S → Type 0) (call : Action S A) : Type 0 where
    pub kept : (s : S) → R s (call s).1

  module _ (R : S → S → Type 0) where
    resume_kept :
        {A B : Type 0} (s : S) (r : Result A × S) (next : A → Action S B)
        → ((a b c : S) → R a b → R b c → R a c)
        → R s r.1
        → ((a : A) → Keeps R (next a))
        → R s (resume r next).1
    resume_kept s (ok a, s') next trans h k = trans s s' (next a s').1 h ((k a).kept s')
    resume_kept s (throw e, s') next trans h k = h

    rescue_kept :
        {A : Type 0} (s : S) (r : Result A × S) (handler : Thrown → Action S A)
        → ((a b c : S) → R a b → R b c → R a c)
        → R s r.1
        → ((e : Thrown) → Keeps R (handler e))
        → R s (rescue r handler).1
    rescue_kept s (ok a, s') handler trans h k = h
    rescue_kept s (throw e, s') handler trans h k = trans s s' (handler e s').1 h ((k e).kept s')

    -- A transitive relation is kept by a call that is followed by another, or by a handler.
    pub >>=-Keeps :
        {A B : Type 0} (call : Action S A) (next : A → Action S B)
        → ((a b c : S) → R a b → R b c → R a c)
        → Keeps R call
        → ((a : A) → Keeps R (next a))
        → Keeps R (call >>= next)
    unfolding ◌>>=◌
    >>=-Keeps call next trans h k = record {
      kept = λ s. resume_kept s (call s) next trans (h.kept s) k;
    }

    pub catches-Keeps :
        {A : Type 0} (call : Action S A) (handler : Thrown → Action S A)
        → ((a b c : S) → R a b → R b c → R a c)
        → Keeps R call
        → ((e : Thrown) → Keeps R (handler e))
        → Keeps R (catches call handler)
    unfolding catches
    catches-Keeps call handler trans h k = record {
      kept = λ s. rescue_kept s (call s) handler trans (h.kept s) k;
    }

    -- A reflexive one is kept by a call that leaves the state alone.
    module _ (reflexive : (s : S) → R s s) where
      pub returns-Keeps : {A : Type 0} (a : A) → Keeps R (returns a)
      unfolding returns
      returns-Keeps a = record { kept = reflexive }

      pub reads-Keeps : {A : Type 0} (f : S → Result A) → Keeps R (reads f)
      unfolding reads
      reads-Keeps f = record { kept = reflexive }

      pub lift-Keeps : {A : Type 0} (r : Result A) → Keeps R (lift r)
      unfolding lift
      lift-Keeps r = record { kept = reflexive }

      pub demand-Keeps : (passed : Bool) (message : String) → Keeps R (demand passed message)
      unfolding demand
      demand-Keeps passed message = record { kept = reflexive }

  resume-eq-ok :
      {A B : Type 0} (r : Result A × S) (next : A → Action S B) {b : B}
      → (resume r next).0 ≡ ok b
      → (a : A) × (s' : S) × (r ≡ (ok a, s')) × ((next a s').0 ≡ ok b)
  resume-eq-ok (ok a, s') next e = (a, s', refl, e)
  resume-eq-ok (throw reason, s') next e = cc

  -- What a call that returned has gone through.
  pub >>=-eq-ok :
      {A B : Type 0} (call : Action S A) (next : A → Action S B) (s : S) {b : B}
      → ((call >>= next) s).0 ≡ ok b
      → (a : A) × (s' : S) × (call s ≡ (ok a, s')) × ((next a s').0 ≡ ok b)
  unfolding ◌>>=◌
  >>=-eq-ok call next s e = resume-eq-ok (call s) next e

  -- A relation that holds wherever a call ends by throwing.
  pub record Undoes {A : Type 0} (R : S → S → Type 0) (call : Action S A) : Type 0 where
    pub undone : (s : S) (e : Thrown) → (call s).0 ≡ throw e → R s (call s).1

  module _ (R : S → S → Type 0) where
    resume_undone :
        {A B : Type 0} (s : S) (r : Result A × S) (next : A → Action S B) (e : Thrown)
        → ((a b c : S) → R a b → R b c → R a c)
        → R s r.1
        → ((a : A) → Undoes R (next a))
        → (resume r next).0 ≡ throw e
        → R s (resume r next).1
    resume_undone s (ok a, s') next e trans h k thrown =
        trans s s' (next a s').1 h ((k a).undone s' e thrown)
    resume_undone s (throw reason, s') next e trans h k thrown = h

    pub >>=-Undoes :
        {A B : Type 0} (call : Action S A) (next : A → Action S B)
        → ((a b c : S) → R a b → R b c → R a c)
        → Keeps R call
        → ((a : A) → Undoes R (next a))
        → Undoes R (call >>= next)
    unfolding ◌>>=◌
    >>=-Undoes call next trans h k = record {
      undone = λ s e. resume_undone s (call s) next e trans (h.kept s) k;
    }

    pub Keeps-Undoes : {A : Type 0} {call : Action S A} → Keeps R call → Undoes R call
    Keeps-Undoes h = record { undone = λ s e thrown. h.kept s }

  -- A run, step by step.
  pub >>=_step :
      {A B : Type 0} (call : Action S A) (next : A → Action S B) {s s' : S} {a : A}
      {end : Result B × S}
      → call s ≡ (ok a, s')
      → next a s' ≡ end
      → (call >>= next) s ≡ end
  unfolding ◌>>=◌
  >>=_step call next e rest = ap (λ r. resume r next) e ∙ rest

  pub reads_step :
      {A : Type 0} (f : S → Result A) {s : S} {a : A} → f s ≡ ok a → reads f s ≡ (ok a, s)
  unfolding reads
  reads_step f {s = s} e = ap (λ r. (r, s)) e

  pub lift_step : {A : Type 0} {r : Result A} {s : S} {a : A} → r ≡ ok a → lift r s ≡ (ok a, s)
  unfolding lift
  lift_step {s = s} e = ap (λ r. (r, s)) e

  pub demand_step :
      {passed : Bool} (message : String) {s : S}
      → passed ≡ true
      → demand passed message s ≡ (ok tt, s)
  unfolding demand
  demand_step message e = rw e refl

  pub returns_step : {A : Type 0} (a : A) (s : S) → returns a s ≡ (ok a, s)
  unfolding returns
  returns_step a s = refl

  pub catches_step :
      {A : Type 0} (call : Action S A) (handler : Thrown → Action S A) {s s' : S} {a : A}
      → call s ≡ (ok a, s')
      → catches call handler s ≡ (ok a, s')
  unfolding catches
  catches_step call handler e = ap (λ r. rescue r handler) e

  resume-eq-returned :
      {A B : Type 0} (r : Result A × S) (next : A → Action S B) {b : B} {t : S}
      → resume r next ≡ (ok b, t)
      → (a : A) × (s' : S) × (r ≡ (ok a, s')) × (next a s' ≡ (ok b, t))
  resume-eq-returned (ok a, s') next e = (a, s', refl, e)
  resume-eq-returned (throw reason, s') next e = absurd (throw-ne-ok (ap (λ x. x.0) e))

  -- The same with the state at the end.
  pub >>=-eq-returned :
      {A B : Type 0} (call : Action S A) (next : A → Action S B) (s : S) {b : B} {t : S}
      → (call >>= next) s ≡ (ok b, t)
      → (a : A) × (s' : S) × (call s ≡ (ok a, s')) × (next a s' ≡ (ok b, t))
  unfolding ◌>>=◌
  >>=-eq-returned call next s e = resume-eq-returned (call s) next e

  -- After a computation that leaves the state alone.
  pub lift->>=-eq-returned :
      {A B : Type 0} (r : Result A) (next : A → Action S B) (s : S) {b : B} {t : S}
      → (lift r >>= next) s ≡ (ok b, t)
      → (a : A) × (r ≡ ok a) × (next a s ≡ (ok b, t))
  unfolding ◌>>=◌ lift
  lift->>=-eq-returned (ok a) next s e = (a, refl, e)
  lift->>=-eq-returned (throw reason) next s e = absurd (throw-ne-ok (ap (λ x. x.0) e))

  pub reads->>=-eq-returned :
      {A B : Type 0} (f : S → Result A) (next : A → Action S B) (s : S) {b : B} {t : S}
      → (reads f >>= next) s ≡ (ok b, t)
      → (a : A) × (f s ≡ ok a) × (next a s ≡ (ok b, t))
  unfolding ◌>>=◌ reads lift
  reads->>=-eq-returned f next s e = lift->>=-eq-returned (f s) next s e

  pub demand->>=-eq-returned :
      {B : Type 0} (passed : Bool) (message : String) (next : Unit {0} → Action S B) (s : S) {b : B}
      {t : S}
      → (demand passed message >>= next) s ≡ (ok b, t)
      → (passed ≡ true) × (next tt s ≡ (ok b, t))
  unfolding ◌>>=◌ demand
  demand->>=-eq-returned true message next s e = (refl, e)
  demand->>=-eq-returned false message next s e = absurd (throw-ne-ok (ap (λ x. x.0) e))
