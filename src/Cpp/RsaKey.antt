-- ===== src/Cpp/RsaKey.antt =====
-- RsaKey of cpp_app/se05x_crypto.cpp. Its member obj_ is the variable `key_pair`.
use se05x.Base.{ℕ, ◌+◌, ◌/◌, Bool, List}
use se05x.App.Sss.{
  rsassa_pkcs1_v1_5_sha256, rsaes_pkcs1_oaep_sha256, mode_sign, mode_verify, mode_encrypt,
  mode_decrypt, part_pair, rsa, persistent, object, asymmetric_context, init, free, allocate_handle,
  generate_key, get_key, sign_digest, verify_digest, encrypt, decrypt, asym, key_pair, is_success,
}
use se05x.Cpp.Calls.{Cpp, ◌>>=◌, ◌>>◌, pure, call, sss, check, check_after, vector}
use se05x.Cpp.Session.{open_handle}

pub record RsaKey : Type 0 where
  pub bits : ℕ
  pub owns : Bool

unfoldable pub generate : (key_id bits : ℕ) → Cpp RsaKey
unfolding check
generate key_id bits = do
  check (init key_pair object) "key_object_init"
  check (allocate_handle key_pair key_id part_pair rsa (bits / 8) persistent)
      "key_object_allocate_handle(RSA)"
  check (generate_key key_pair bits) "key_store_generate_key(RSA)"
  pure (record { bits = bits; owns = Bool.true })

-- The size of the key is not asked for: `bits` keeps its initial value.
unfoldable pub open_key : (key_id : ℕ) → Cpp RsaKey
unfolding open_handle
open_key key_id = do open_handle key_id; pure (record { bits = 2048; owns = Bool.false })

unfoldable pub sign : RsaKey → (digest : List ℕ) → Cpp (List ℕ)
unfolding check check_after
sign k digest = do
  check (init asym (asymmetric_context key_pair rsassa_pkcs1_v1_5_sha256 mode_sign))
      "asymmetric_context_init(RSA sign)"
  r ← check_after (sign_digest digest (k.bits / 8)) asym "asymmetric_sign_digest(RSA)"
  pure (vector (k.bits / 8) r)

unfoldable pub verify : RsaKey → (digest signature : List ℕ) → Cpp Bool
unfolding check
verify k digest signature = do
  check (init asym (asymmetric_context key_pair rsassa_pkcs1_v1_5_sha256 mode_verify))
      "asymmetric_context_init(RSA verify)"
  r ← call (sss (verify_digest digest signature))
  call (sss (free asym))
  pure (is_success r)

unfoldable pub encrypt_bytes : RsaKey → (plaintext : List ℕ) → Cpp (List ℕ)
unfolding check check_after
encrypt_bytes k plaintext = do
  check (init asym (asymmetric_context key_pair rsaes_pkcs1_oaep_sha256 mode_encrypt))
      "asymmetric_context_init(RSA enc)"
  r ← check_after (encrypt plaintext (k.bits / 8)) asym "asymmetric_encrypt(RSA)"
  pure (vector (k.bits / 8) r)

unfoldable pub decrypt_bytes : RsaKey → (ciphertext : List ℕ) → Cpp (List ℕ)
unfolding check check_after
decrypt_bytes k ciphertext = do
  check (init asym (asymmetric_context key_pair rsaes_pkcs1_oaep_sha256 mode_decrypt))
      "asymmetric_context_init(RSA dec)"
  r ← check_after (decrypt ciphertext (k.bits / 8)) asym "asymmetric_decrypt(RSA)"
  pure (vector (k.bits / 8) r)

unfoldable pub public_key_der : RsaKey → Cpp (List ℕ)
unfolding check
public_key_der k = do
  r ← check (get_key key_pair (k.bits / 8 + 64)) "key_store_get_key(RSA pub)"
  pure (vector (k.bits / 8 + 64) r)
