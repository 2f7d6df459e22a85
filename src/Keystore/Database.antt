-- ===== src/Keystore/Database.antt =====
-- The object store: what `get` finds after `put` and `delete`.
use hybrid_quantum_cryptogra.Prelude.{◌≡◌, refl, none, some, List, [], ◌∷◌, arith, if◌then◌else◌}
use hybrid_quantum_cryptogra.Js.{Text, text_eq, text_eq_iff}
use hybrid_quantum_cryptogra.Keystore.Platform.{get, put, delete}

module _ {ℓ} {R : Type ℓ} where
  pub get-put :
      (id j : Text) (r : R) (records : List (Text × R))
      → get j (put id r records) ≡ (if text_eq id j then some r else get j records)
  unfolding get put
  get-put id j r [] = refl
  get-put id j r ((k, old) ∷ records) =
      ground (arith, text_eq_iff k id, text_eq_iff id j, text_eq_iff k j, get-put id j r records)

  pub get-delete :
      (id j : Text) (records : List (Text × R))
      → get j (delete id records) ≡ (if text_eq id j then none else get j records)
  unfolding get delete
  get-delete id j [] = ground arith
  get-delete id j ((k, old) ∷ records) =
      ground (arith, text_eq_iff k id, text_eq_iff id j, text_eq_iff k j, get-delete id j records)
