-- ===== src/Keystore/Generation.antt =====
-- frontend/src/utils/platformKeystore.js: a new key pair for a client.
use hybrid_quantum_cryptogra.Js.{Text, Result, ok, ◌>>=◌, ◌>>◌}
use hybrid_quantum_cryptogra.Keystore.Platform.{Bytes, Browser, Environment, get_subtle_crypto}
use hybrid_quantum_cryptogra.Keystore.{array_buffer_to_base64}

module _ (browser : Browser) where
  -- What the browser generates, the public key in the form SPKI.
  pub record KeyPair : Type 0 where
    pub private_key : Browser.Key browser
    pub spki : Bytes

  pub record ClientKeyPair : Type 0 where
    pub private_key : Browser.Key browser
    pub public_key_spki_b64 : Text

  unfoldable pub generate_client_key_pair :
      Environment → (generated : Result KeyPair) → Result ClientKeyPair
  unfolding get_subtle_crypto array_buffer_to_base64
  generate_client_key_pair env generated = do
    get_subtle_crypto env
    pair ← generated
    ok (record {
      private_key = pair.private_key;
      public_key_spki_b64 = array_buffer_to_base64 browser pair.spki;
    })
