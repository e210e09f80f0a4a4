-- ===== src/Pkcs11/EncryptDecrypt.antt =====
-- demo_encrypt_decrypt.c: AES-ECB, AES-CBC and RSA-OAEP, each encrypted and decrypted again.
pub mod Protocol
pub mod Ledger
use se05x.Base.{
  ℕ, true, false, List, [], ◌∷◌, ◌&&◌, ◌==◌, bytes_eq, if◌then◌else◌, take, replicate, codes,
}
use se05x.Prog.{ret, ◌>>=◌, ◌>>◌}
use se05x.Pkcs11.Cryptoki.{
  sha256, Mechanism, rsa_pkcs_oaep, aes_ecb, aes_cbc, rsa_pkcs_key_pair_gen, aes_key_gen, Attribute,
  token, sensitive, encrypt, decrypt, value_len, modulus_bits, public_exponent, label, id,
  encrypting, decrypting, fail_line, skip_line, roundtrip_line, generate_key, generate_key_pair,
  op_init, op_data, Demo, handle_of, handle2_of, fill, say, on_ok, ck_check, destroy, print_hex,
  rsa_e,
}

-- kPlain and kPlain16
abbrev pub plain : List ℕ
plain = codes "SE051 PKCS#11 encrypt demo!!!!!!"

abbrev pub plain16 : List ℕ
plain16 = codes "SE051 AES test!!"

abbrev pub aes_template : List Attribute
aes_template =
    token true
    ∷ encrypt true
    ∷ decrypt true
    ∷ sensitive false
    ∷ value_len 16
    ∷ label "sss:0xEF000050"
    ∷ id (0xEF ∷ 0x00 ∷ 0x00 ∷ 0x50 ∷ [])
    ∷ []

abbrev pub rsa_id : List ℕ
rsa_id = 0xEF ∷ 0x00 ∷ 0x00 ∷ 0x51 ∷ []

abbrev pub pub_template : List Attribute
pub_template =
    token true
    ∷ encrypt true
    ∷ modulus_bits 2048
    ∷ public_exponent rsa_e
    ∷ label "sss:0xEF000051"
    ∷ id rsa_id
    ∷ []

abbrev pub priv_template : List Attribute
priv_template = token true ∷ decrypt true ∷ label "sss:0xEF000051" ∷ id rsa_id ∷ []

-- mechOaep with its parameters
abbrev pub oaep : Mechanism
oaep = rsa_pkcs_oaep sha256 sha256

-- One AES block, ECB or CBC: the buffers `ct` and `pt2` go on to the next one.
pub aes_roundtrip :
    (session key : ℕ) (mech : Mechanism) (ct pt : List ℕ) (cleanup : ℕ → Demo ℕ)
    (next : List ℕ → List ℕ → Demo ℕ)
    → Demo ℕ
aes_roundtrip session key mech ct pt cleanup next =
    ck_check (op_init encrypting session mech key) (λ r. cleanup 1)
      λ r.
        ck_check (op_data encrypting session plain16 64) (λ c. cleanup 1)
          λ c.
            print_hex (fill ct c) c.len
            >> ck_check (op_init decrypting session mech key) (λ r. cleanup 1)
                λ r.
                  ck_check (op_data decrypting session (take c.len (fill ct c)) 64) (λ p. cleanup 1)
                    λ p.
                      if p.len == 16 && bytes_eq (take p.len (fill pt p)) (take p.len plain16)
                      then say roundtrip_line >> next (fill ct c) (fill pt p)
                      else (say fail_line >> cleanup 1)

-- The end of the RSA block: its keys are destroyed before the label `cleanup`.
pub oaep_done : (session pub_key priv_key : ℕ) (cleanup : ℕ → Demo ℕ) (rc : ℕ) → Demo ℕ
oaep_done session pub_key priv_key cleanup rc =
    destroy session priv_key >>= λ h. destroy session pub_key >>= λ h. cleanup rc

pub oaep_roundtrip : (session pub_key priv_key : ℕ) (done : ℕ → Demo ℕ) → Demo ℕ
oaep_roundtrip session pub_key priv_key done =
    let bad = say fail_line >> done 1 in
    on_ok (op_init encrypting session oaep pub_key) (λ r. say skip_line >> done 0)
      λ r.
        on_ok (op_data encrypting session plain 256) (λ c. bad)
          λ c.
            print_hex (fill [] c) c.len
            >> on_ok (op_init decrypting session oaep priv_key) (λ r. bad)
                λ r.
                  on_ok (op_data decrypting session (take c.len (fill [] c)) 256) (λ p. bad)
                    λ p.
                      if p.len == 32 && bytes_eq (take 32 (fill [] p)) plain
                      then say roundtrip_line >> done 0
                      else bad

pub rsa_oaep : (session : ℕ) (cleanup : ℕ → Demo ℕ) → Demo ℕ
rsa_oaep session cleanup =
    on_ok (generate_key_pair session rsa_pkcs_key_pair_gen pub_template priv_template)
      (λ r. say skip_line >> cleanup 0)
      λ r.
        oaep_roundtrip session (handle_of r) (handle2_of r)
          (oaep_done session (handle_of r) (handle2_of r) cleanup)

-- The label `cleanup`.
pub aes_cleanup : (session key rc : ℕ) → Demo ℕ
aes_cleanup session key rc = destroy session key >>= λ h. ret rc

-- The AES key is destroyed before the RSA block, and its variable is then CK_INVALID_HANDLE.
pub oaep_part : (session key : ℕ) → Demo ℕ
oaep_part session key = destroy session key >>= λ gone. rsa_oaep session (aes_cleanup session gone)

pub cbc_part : (session key : ℕ) (ct pt : List ℕ) → Demo ℕ
cbc_part session key ct pt =
    aes_roundtrip session key (aes_cbc (replicate 16 0)) ct pt (aes_cleanup session key)
      (λ ct pt. oaep_part session key)

unfoldable pub run_encrypt_decrypt : (session : ℕ) → Demo ℕ
unfolding aes_roundtrip oaep_done oaep_roundtrip rsa_oaep aes_cleanup oaep_part cbc_part
run_encrypt_decrypt session =
    ck_check (generate_key session aes_key_gen aes_template)
      (λ r. aes_cleanup session (handle_of r) 1)
      (λ r.
        aes_roundtrip session (handle_of r) aes_ecb [] [] (aes_cleanup session (handle_of r))
          (cbc_part session (handle_of r)))
