-- ===== src/Pkcs11/ImportObject.antt =====
-- demo_import_object.c: C_CreateObject for AES, generic secret, and EC public key.
pub mod Protocol
pub mod Verdict
use se05x.Base.{ℕ, true, false, List, [], ◌∷◌}
use se05x.Prog.{ret, ◌>>=◌, ◌>>◌}
use se05x.Pkcs11.Cryptoki.{
  Attribute, object_class, key_type, token, encrypt, decrypt, sensitive, sign, verify, value, label,
  id, ec_params, ec_point, public_key, secret_key, aes, generic_secret, ec, ec_params_of, ec_p256,
  create_object, get_attribute_value, Demo, handle_of, fill, on_ok, ck_check, destroy, print_hex,
}

abbrev pub aes_template : List Attribute
aes_template =
    object_class secret_key
    ∷ key_type aes
    ∷ token true
    ∷ encrypt true
    ∷ decrypt true
    ∷ sensitive false
    ∷ value (
        0x00 ∷ 0x01 ∷ 0x02 ∷ 0x03 ∷ 0x04 ∷ 0x05 ∷ 0x06 ∷ 0x07 ∷ 0x08 ∷ 0x09 ∷ 0x0A ∷ 0x0B ∷ 0x0C
        ∷ 0x0D ∷ 0x0E ∷ 0x0F ∷ [])
    ∷ label "sss:0xEF000082"
    ∷ id (0xEF ∷ 0x00 ∷ 0x00 ∷ 0x82 ∷ [])
    ∷ []

abbrev pub secret_template : List Attribute
secret_template =
    object_class secret_key
    ∷ key_type generic_secret
    ∷ token true
    ∷ sign true
    ∷ verify true
    ∷ sensitive false
    ∷ value (
        0xDE ∷ 0xAD ∷ 0xBE ∷ 0xEF ∷ 0xCA ∷ 0xFE ∷ 0xBA ∷ 0xBE ∷ 0x01 ∷ 0x23 ∷ 0x45 ∷ 0x67 ∷ 0x89
        ∷ 0xAB ∷ 0xCD ∷ 0xEF ∷ 0xFE ∷ 0xDC ∷ 0xBA ∷ 0x98 ∷ 0x76 ∷ 0x54 ∷ 0x32 ∷ 0x10 ∷ 0x11 ∷ 0x22
        ∷ 0x33 ∷ 0x44 ∷ 0x55 ∷ 0x66 ∷ 0x77 ∷ 0x88 ∷ [])
    ∷ label "sss:0xEF000083"
    ∷ id (0xEF ∷ 0x00 ∷ 0x00 ∷ 0x83 ∷ [])
    ∷ []

-- kEcPoint: an OCTET STRING of 65 bytes, 04 || X || Y.
abbrev pub test_point : List ℕ
test_point =
    0x04 ∷ 0x41 ∷ 0x04 ∷ 0x60 ∷ 0xFE ∷ 0xD4 ∷ 0xBA ∷ 0x25 ∷ 0x5A ∷ 0x9D ∷ 0x31 ∷ 0xC9 ∷ 0x61 ∷ 0xEB
    ∷ 0x74 ∷ 0xC6 ∷ 0x35 ∷ 0x6D ∷ 0x68 ∷ 0xC0 ∷ 0x49 ∷ 0xB8 ∷ 0x92 ∷ 0x3B ∷ 0x61 ∷ 0xFA ∷ 0x6C
    ∷ 0xE6 ∷ 0x69 ∷ 0x62 ∷ 0x2E ∷ 0x60 ∷ 0xF2 ∷ 0x9F ∷ 0xB6 ∷ 0x79 ∷ 0x03 ∷ 0xFE ∷ 0x10 ∷ 0x08
    ∷ 0xB8 ∷ 0xBC ∷ 0x99 ∷ 0xA4 ∷ 0x1A ∷ 0xE9 ∷ 0xE9 ∷ 0x56 ∷ 0x28 ∷ 0xBC ∷ 0x64 ∷ 0xF2 ∷ 0xF1
    ∷ 0xB2 ∷ 0x0C ∷ 0x2D ∷ 0x7E ∷ 0x9F ∷ 0x51 ∷ 0x77 ∷ 0xA3 ∷ 0xC2 ∷ 0x94 ∷ 0xD4 ∷ 0x46 ∷ 0x22
    ∷ 0x99 ∷ []

abbrev pub ec_template : List Attribute
ec_template =
    object_class public_key
    ∷ key_type ec
    ∷ token true
    ∷ verify true
    ∷ ec_params ec_p256
    ∷ ec_point test_point
    ∷ label "sss:0xEF000080"
    ∷ id (0xEF ∷ 0x00 ∷ 0x00 ∷ 0x80 ∷ [])
    ∷ []

-- An import and the release of the object, before the code that follows.
pub import_secret : (session : ℕ) → List Attribute → (after : Demo ℕ) → Demo ℕ
import_secret session tmpl after =
    ck_check (create_object session tmpl) (λ r. ret 1)
      (λ r. destroy session (handle_of r) >>= λ h. after)

pub import_ec_public : (session : ℕ) → Demo ℕ
import_ec_public session =
    ck_check (create_object session ec_template) (λ r. ret 1)
      λ r.
        on_ok (get_attribute_value session (handle_of r) ec_params_of 16)
          (λ a. destroy session (handle_of r) >>= λ h. ret 0)
          (λ a. print_hex (fill [] a) a.len >> (destroy session (handle_of r) >>= λ h. ret 0))

unfoldable pub run_import_object : (session : ℕ) → Demo ℕ
unfolding import_secret import_ec_public
run_import_object session =
    import_secret session aes_template
      (import_secret session secret_template (import_ec_public session))
