-- ===== src/Pkcs11/Rsa.antt =====
-- demo_rsa.c: RSA-2048 key pair generation, PKCS#1 v1.5 and PSS sign and verify.
pub mod Protocol
pub mod Verdict
use se05x.Base.{ℕ, true, false, List, [], ◌∷◌, take, codes}
use se05x.Prog.{ret, ◌>>=◌, ◌>>◌}
use se05x.Pkcs11.Cryptoki.{
  sha256, rsa_pkcs, rsa_pkcs_pss, rsa_pkcs_key_pair_gen, Mechanism, Attribute, token, verify,
  encrypt, decrypt, sign, modulus_bits, public_exponent, label, id, modulus_of, signing, verifying,
  fail_line, skip_line, valid_line, generate_key_pair, get_attribute_value, op_init, op_data,
  op_verify, Demo, handle_of, handle2_of, fill, say, on_ok, ck_check, destroy, print_hex, rsa_e,
}

-- kMsg
abbrev pub message : List ℕ
message = codes "SE051 PKCS#11 RSA sign/verify test message"

abbrev pub key_id : List ℕ
key_id = 0xEF ∷ 0x00 ∷ 0x00 ∷ 0x40 ∷ []

abbrev pub pub_template : List Attribute
pub_template =
    token true
    ∷ verify true
    ∷ encrypt false
    ∷ modulus_bits 2048
    ∷ public_exponent rsa_e
    ∷ label "sss:0xEF000040"
    ∷ id key_id
    ∷ []

abbrev pub priv_template : List Attribute
priv_template = token true ∷ sign true ∷ decrypt false ∷ label "sss:0xEF000040" ∷ id key_id ∷ []

-- mechPkcs, and mechPss with its parameters.
abbrev pub pkcs : Mechanism
pkcs = rsa_pkcs sha256

abbrev pub pss : Mechanism
pss = rsa_pkcs_pss sha256 sha256 sha256 32

-- The label `cleanup`.
pub rsa_cleanup : (session pub_key priv_key rc : ℕ) → Demo ℕ
rsa_cleanup session pub_key priv_key rc =
    destroy session priv_key >>= λ h. destroy session pub_key >>= λ h. ret rc

-- PSS, with the buffer `sig` as the first signature left it. The mechanism may be unsupported.
pub rsa_pss : (session pub_key priv_key : ℕ) (sig : List ℕ) (cleanup : ℕ → Demo ℕ) → Demo ℕ
rsa_pss session pub_key priv_key sig cleanup =
    let bad = say fail_line >> cleanup 1 in
    on_ok (op_init signing session pss priv_key) (λ r. say skip_line >> cleanup 0)
      λ r.
        on_ok (op_data signing session message 256) (λ r. bad)
          λ r.
            print_hex (fill sig r) r.len
            >> on_ok (op_init verifying session pss pub_key) (λ v. bad)
                λ v.
                  on_ok (op_verify session message (take r.len (fill sig r))) (λ v. bad)
                    (λ v. say valid_line >> cleanup 0)

pub rsa_pkcs1 : (session pub_key priv_key : ℕ) (cleanup : ℕ → Demo ℕ) → Demo ℕ
rsa_pkcs1 session pub_key priv_key cleanup =
    ck_check (op_init signing session pkcs priv_key) (λ r. cleanup 1)
      λ r.
        ck_check (op_data signing session message 256) (λ r. cleanup 1)
          λ r.
            print_hex (fill [] r) r.len
            >> ck_check (op_init verifying session pkcs pub_key) (λ v. cleanup 1)
                λ v.
                  ck_check (op_verify session message (take r.len (fill [] r))) (λ v. cleanup 1)
                    (λ v. say valid_line >> rsa_pss session pub_key priv_key (fill [] r) cleanup)

unfoldable pub run_rsa : (session : ℕ) → Demo ℕ
unfolding rsa_cleanup rsa_pkcs1 rsa_pss
run_rsa session =
    ck_check (generate_key_pair session rsa_pkcs_key_pair_gen pub_template priv_template)
      (λ r. rsa_cleanup session (handle_of r) (handle2_of r) 1)
      λ r.
        let pub_key = handle_of r in
        let priv_key = handle2_of r in
        let sign = rsa_pkcs1 session pub_key priv_key (rsa_cleanup session pub_key priv_key) in
        on_ok (get_attribute_value session pub_key modulus_of 256) (λ a. sign)
          (λ a. print_hex (fill [] a) a.len >> sign)
