-- ===== src/Renewal/Storing.antt =====
-- frontend/src/pages/customer/CertificateRequest/CertificateRequest.jsx: what `handleReEnroll` does with the
-- new keys once the database is open, and the logout that follows.
use hybrid_quantum_cryptogra.Prelude.{Option, none, some, List, [], ◌∷◌, ◌++◌}
use hybrid_quantum_cryptogra.Js.{Text, lit, join, Result, ok}
use hybrid_quantum_cryptogra.Actions.{Action, ◌>>=◌, ◌>>◌, lift}
use hybrid_quantum_cryptogra.Keystore.Platform.{Browser, put}
use hybrid_quantum_cryptogra.Session.{Client}
use hybrid_quantum_cryptogra.Signup.{Download}
use hybrid_quantum_cryptogra.Renewal.{Page, Request, Pair, Issued, load_data, renewal}
use hybrid_quantum_cryptogra.Renewal.Lines.{private_key_pem}

-- The page with what it leaves in the browser: the files, the latest first, the store of the database
-- PQBankingKeyStore, which is another one than the keystore's, the session, and the entries `token` of
-- `localStorage` and `sessionStorage`.
pub record Tab (Info : Type 0) : Type 0 where
  pub page : Page Info
  pub downloads : List Download
  pub keys : List (Text × Text)
  pub client : Client
  pub local_token : Option Text
  pub session_token : Option Text

module _ {Info : Type 0} where
  unfoldable pub keep : Text → Text → Action (Tab Info) (Unit {0})
  keep id value t = (ok tt, record t { keys = put id value t.keys })

  unfoldable pub download : Text → Text → Action (Tab Info) (Unit {0})
  download name contents t =
      (ok tt, record t { downloads = record { name = name; contents = contents } ∷ t.downloads })

  -- What the page tells, and the load of its data.
  unfoldable pub announce : (user_id device_secret : Text) → Action (Tab Info) (List Request)
  unfolding load_data
  announce user_id device_secret t =
      let (page, requests) = load_data renewal (record (t.page) {
        success = join b'\n' (
            lit "✅ Certificate enrolled successfully! "
            ∷ lit "        "
            ∷ lit "IMPORTANT - Save these files:"
            ∷ (lit "1. Certificate: certificate_" ++ (user_id ++ lit ".pem"))
            ∷ (lit "2. Private Key: rsa_private_" ++ (user_id ++ lit ".pem  "))
            ∷ (lit "3. Device Secret: " ++ device_secret)
            ∷ []
            ∷ lit "Logging out in 10 seconds..."
            ∷ []);
      }) in
      (ok requests, record t { page = page })

  module _ (browser : Browser) where
    -- `started` and `written` are what the start of a transaction and the first writing to its store come
    -- to: after the export, which waits, the transaction may have ended.
    unfoldable pub store_keys :
        (started written : Result (Unit {0}))
        → (user_id : Text) → Issued
        → Pair
        → Action (Tab Info) (List Request)
    unfolding private_key_pem keep download announce
    store_keys started written user_id issued pair = do
      lift started
      pkcs8 ← lift pair.pkcs8
      lift written
      keep (lit "rsa_private_key") (Browser.btoa browser pkcs8)
      keep (lit "device_secret") issued.device_secret
      keep (lit "certificate") issued.certificate_pem
      download (lit "certificate_" ++ (user_id ++ lit ".pem")) issued.certificate_pem
      pem ← lift (private_key_pem (Browser.btoa browser pkcs8))
      download (lit "rsa_private_" ++ (user_id ++ lit ".pem")) pem
      announce user_id issued.device_secret

  -- Ten seconds after the data is loaded again.
  unfoldable pub auto_logout : Tab Info → Tab Info
  auto_logout t = record t {
    local_token = none;
    session_token = none;
    client = record (t.client) { location = some (lit "/login") };
  }
