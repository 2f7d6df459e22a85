-- ===== src/Signup/Hex.antt =====
-- frontend/src/components/auth/CustomerSignup.jsx: `hexToBytes` reads what `bufferToHex` of
-- frontend/src/context/AuthContext.jsx writes.
use hybrid_quantum_cryptogra.Prelude.{
  ℕ, ◌+◌, ◌*◌, ◌/◌, ◌%◌, ◌<◌, ◌≡◌, refl, ap₂, true, [], ◌∷◌, filter_by, arith,
}
use hybrid_quantum_cryptogra.Keystore.Platform.{Bytes, IsBytes}
use hybrid_quantum_cryptogra.Login.Parts.{buffer_to_hex, hex_digit}
use hybrid_quantum_cryptogra.Signup.Delivery.{is_hex, hex_value, hex_pairs, hex_to_bytes}

hex_digit-is_hex : (n : ℕ) → n < 16 → is_hex (hex_digit n) ≡ true
unfolding is_hex hex_digit
hex_digit-is_hex n h = ground arith

hex_value-hex_digit : (n : ℕ) → n < 16 → hex_value (hex_digit n) ≡ n
unfolding hex_value hex_digit
hex_value-hex_digit n h = ground arith

byte_of_digits :
    (b : ℕ) → b < 256 → hex_value (hex_digit (b / 16)) * 16 + hex_value (hex_digit (b % 16)) ≡ b
byte_of_digits b h =
    rw (hex_value-hex_digit (b / 16) (omega arith))
      (rw (hex_value-hex_digit (b % 16) (omega arith)) (omega arith))

-- The digits of bytes are read as these bytes.
pub hex_to_bytes-buffer_to_hex :
    (bytes : Bytes) → IsBytes bytes → hex_to_bytes (buffer_to_hex bytes) ≡ bytes
unfolding hex_to_bytes hex_pairs buffer_to_hex filter_by
hex_to_bytes-buffer_to_hex [] h = refl
hex_to_bytes-buffer_to_hex (b ∷ bytes) (h, hs) =
    rw (hex_digit-is_hex (b / 16) (omega arith), filter_by)
      (rw (hex_digit-is_hex (b % 16) (omega arith), filter_by)
        (ap₂ (λ c rest. c ∷ rest) (byte_of_digits b h) (hex_to_bytes-buffer_to_hex bytes hs)))
