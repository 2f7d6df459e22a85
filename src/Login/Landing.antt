-- ===== src/Login/Landing.antt =====
-- frontend/src/components/auth/Login.jsx: where the form ends up, by what the login comes to.
use hybrid_quantum_cryptogra.Prelude.{
  ◌≡◌, ◌≢◌, refl, sym, subst, true, false, Option, none, some, [], Bool-cases, Option-cases, inl,
  inr,
}
use hybrid_quantum_cryptogra.Js.{lit, text_eq, text_eq_sound, Text, trim, Result, ok, throw}
use hybrid_quantum_cryptogra.Roles.{User, user_role}
use hybrid_quantum_cryptogra.Keystore.Platform.{Browser}
use hybrid_quantum_cryptogra.Login.Parts.{Upload, Server, Crypto, Device}
use hybrid_quantum_cryptogra.Login.Certificate.{login_with_certificate}
use hybrid_quantum_cryptogra.Login.Form.{
  Form, form, success, target_path, by_target, by_role, after_login, handle_login,
}

-- The dashboard of each role.
pub data Home : Text → Text → Type 0 where
  of_customer : Home (lit "customer") (lit "/dashboard")
  of_auditor_clerk : Home (lit "auditor_clerk") (lit "/dashboard")
  of_manager : Home (lit "manager") (lit "/manager/dashboard")
  of_system_admin : Home (lit "system_admin") (lit "/admin/dashboard")

target_path-Home : {role target : Text} → Home role target → target_path role ≡ some target
unfolding target_path text_eq lit
target_path-Home of_customer = refl
target_path-Home of_auditor_clerk = refl
target_path-Home of_manager = refl
target_path-Home of_system_admin = refl

some-injective : {a b : Text} → some a ≡ some b → a ≡ b
some-injective e = cc

some-ne-none : {a : Text} → some a ≢ none
some-ne-none e = cc

of_target :
    {role name path target : Text}
    → Home name path
    → text_eq role name ≡ true
    → some path ≡ some target
    → Home role target
of_target {role} {name} {path} {target} home named e =
    subst (λ r. Home r target) (sym (text_eq_sound role name named))
      (subst (Home name) (some-injective e) home)

target_path-eq-some : (role target : Text) → target_path role ≡ some target → Home role target
unfolding target_path
target_path-eq-some role target e = elim (Bool-cases (text_eq role (lit "customer"))) [
  | inl h ↦ of_target of_customer h (rw (h, target_path) at e)
  | inr h ↦ elim (Bool-cases (text_eq role (lit "auditor_clerk"))) [
    | inl k ↦ of_target of_auditor_clerk k (rw (h, k, target_path) at e)
    | inr k ↦ elim (Bool-cases (text_eq role (lit "manager"))) [
      | inl l ↦ of_target of_manager l (rw (h, k, l, target_path) at e)
      | inr l ↦ elim (Bool-cases (text_eq role (lit "system_admin"))) [
        | inl m ↦ of_target of_system_admin m (rw (h, k, l, m, target_path) at e)
        | inr m ↦ absurd (some-ne-none (sym (rw (h, k, l, m, target_path) at e)))
      ]
    ]
  ]
]

module _ {browser : Browser} where
  -- The form is at the stage where it is filled in, and the device is as the login has left it.
  abbrev pub Refused : Device browser → Form × Device browser → Type 0
  Refused d (f', d') = (f'.login_stage ≡ form) × (f'.loading ≡ false) × (d' ≡ d)

  -- The user is sent to a page; what was entered is cleared, and the session and the keystore are as the
  -- login has left them.
  abbrev pub Sent : Text → Device browser → Form × Device browser → Type 0
  Sent target d (f', d') =
      (d'.client.location ≡ some target)
      × (d'.client.auth ≡ d.client.auth)
      × (d'.client.pq_token ≡ d.client.pq_token)
      × (d'.records ≡ d.records)
      × (f'.login_stage ≡ success)
      × (f'.private_key_file ≡ none)
      × (f'.manual_device_secret ≡ [])

  abbrev pub LandedAs : Option Text → Device browser → Form × Device browser → Type 0
  LandedAs none d after = Refused d after
  LandedAs (some role) d after =
      ((target : Text) → Home role target → Sent target d after)
      × (((target : Text) → ¬ Home role target) → Refused d after)

  abbrev pub Landed : Result (Option User) → Device browser → Form × Device browser → Type 0
  Landed (throw e) d after = Refused d after
  Landed (ok user) d after = LandedAs (user_role user) d after

  by_target-Sent :
      (target : Text) (f : Form) (d : Device browser) → Sent target d (by_target (some target) f d)
  unfolding by_target
  by_target-Sent target f d = (refl, refl, refl, refl, refl, refl, refl)

  by_target-Refused :
      (f : Form) (d : Device browser) → f.login_stage ≡ form → Refused d (by_target none f d)
  unfolding by_target
  by_target-Refused f d shown = (shown, refl, refl)

  by_role-LandedAs :
      (role : Option Text) (f : Form) (d : Device browser)
      → f.login_stage ≡ form
      → LandedAs role d (by_role role f d)
  unfolding by_role
  by_role-LandedAs none f d shown = (refl, refl, refl)
  by_role-LandedAs (some role) f d shown = (
    λ target home.
        subst (λ t. Sent target d (by_target t f d)) (sym (target_path-Home home))
          (by_target-Sent target f d),
    λ homeless. elim (Option-cases (target_path role)) [
      | inl unknown ↦
          subst (λ t. Refused d (by_target t f d)) (sym unknown) (by_target-Refused f d shown)
      | inr (target, e) ↦ absurd (homeless target (target_path-eq-some role target e))
    ],
  )

  after_login-Landed :
      (result : Result (Option User)) (f : Form) (d : Device browser)
      → f.login_stage ≡ form
      → Landed result d (after_login result f d)
  unfolding after_login
  after_login-Landed (throw e) f d shown = (refl, refl, refl)
  after_login-Landed (ok user) f d shown = by_role-LandedAs (user_role user) f d shown

  -- With a certificate file chosen, the form sends a user whose role is one of the four, spelled as the
  -- code spells it, to the dashboard of the role. After a login that fails, and for a user with another
  -- role or none, the form goes back to the stage where it is filled in and leaves the device as the login
  -- has left it: a login that went through is not undone.
  pub handle_login-Landed :
      (crypto : Crypto browser) (server : Server) (f : Form) (d : Device browser) (file : Upload)
      → f.login_stage ≡ form
      → f.certificate_file ≡ some file
      → Landed
          (login_with_certificate crypto server
            (some file)
            f.private_key_file
            (trim f.manual_device_secret)
            d).0
          (login_with_certificate crypto server
            (some file)
            f.private_key_file
            (trim f.manual_device_secret)
            d).1
          (handle_login crypto server f d)
  unfolding handle_login
  handle_login-Landed crypto server f d file shown chosen =
      rw (chosen, handle_login) (after_login-Landed _ (record f { loading = true }) _ shown)
