-- ===== src/Pkcs11/SymKeyGen.antt =====
-- demo_sym_key_gen.c: AES and generic secret key generation.
pub mod Protocol
pub mod Verdict
use se05x.Base.{ℕ, String, true, false, List, [], ◌∷◌}
use se05x.Prog.{ret, ◌>>=◌}
use se05x.Pkcs11.Cryptoki.{
  Attribute, token, encrypt, decrypt, sensitive, sign, verify, value_len, label, id, aes_key_gen,
  generic_secret_key_gen, generate_key, Demo, handle_of, ck_check, destroy,
}

-- A row of kAesKeys: the length in bytes, the label and the identifier.
pub record AesKey : Type 0 where
  pub len : ℕ
  pub name : String
  pub key_id : List ℕ

abbrev pub aes_keys : List AesKey
aes_keys =
    record { len = 16; name = "sss:0xEF0000B0"; key_id = 0xEF ∷ 0x00 ∷ 0x00 ∷ 0xB0 ∷ [] }
    ∷ record { len = 24; name = "sss:0xEF0000B1"; key_id = 0xEF ∷ 0x00 ∷ 0x00 ∷ 0xB1 ∷ [] }
    ∷ record { len = 32; name = "sss:0xEF0000B2"; key_id = 0xEF ∷ 0x00 ∷ 0x00 ∷ 0xB2 ∷ [] }
    ∷ []

abbrev pub aes_template : AesKey → List Attribute
aes_template k =
    token true
    ∷ encrypt true
    ∷ decrypt true
    ∷ sensitive false
    ∷ value_len k.len
    ∷ label k.name
    ∷ id k.key_id
    ∷ []

abbrev pub secret_template : List Attribute
secret_template =
    token true
    ∷ sign true
    ∷ verify true
    ∷ value_len 32
    ∷ label "sss:0xEF0000B3"
    ∷ id (0xEF ∷ 0x00 ∷ 0x00 ∷ 0xB3 ∷ [])
    ∷ []

-- The loop over kAesKeys, and the code after it.
pub aes_loop : (session : ℕ) (after : Demo ℕ) → List AesKey → Demo ℕ
aes_loop session after [] = after
aes_loop session after (k ∷ keys) =
    ck_check (generate_key session aes_key_gen (aes_template k)) (λ r. ret 1)
      (λ r. destroy session (handle_of r) >>= λ h. aes_loop session after keys)

pub generic_secret : (session : ℕ) → Demo ℕ
generic_secret session =
    ck_check (generate_key session generic_secret_key_gen secret_template) (λ r. ret 1)
      (λ r. destroy session (handle_of r) >>= λ h. ret 0)

unfoldable pub run_sym_key_gen : (session : ℕ) → Demo ℕ
unfolding aes_loop generic_secret
run_sym_key_gen session = aes_loop session (generic_secret session) aes_keys
