-- ===== src/Pkcs11/Ecc.antt =====
-- demo_ecc.c: EC key pair generation, and ECDSA sign and verify, on three curves in turn.
pub mod Protocol
pub mod Rounds
pub mod Verdict
use se05x.Base.{ℕ, String, true, List, [], ◌∷◌, take, codes}
use se05x.Prog.{ret, ◌>>=◌, ◌>>◌}
use se05x.Pkcs11.Cryptoki.{
  Hash, sha256, sha384, sha512, ecdsa, ec_key_pair_gen, Attribute, token, verify, sign, ec_params,
  label, id, ec_point_of, signing, verifying, fail_line, skip_line, valid_line, generate_key_pair,
  get_attribute_value, op_init, op_data, op_verify, Demo, handle_of, handle2_of, fill, say, on_ok,
  destroy, print_hex, ec_p256, ec_p384, ec_p521,
}

-- kMsg
abbrev pub message : List ℕ
message = codes "SE051 PKCS#11 ECC sign/verify test message"

-- A row of kCurves; the mechanism is CKM_ECDSA_SHAnnn, and the row's names and sigLen are not used.
pub record Curve : Type 0 where
  pub params : List ℕ
  pub hash : Hash
  pub name : String
  pub key_id : List ℕ

abbrev pub curves : List Curve
curves =
    record {
      params = ec_p256;
      hash = sha256;
      name = "sss:0xEF000030";
      key_id = 0xEF ∷ 0x00 ∷ 0x00 ∷ 0x30 ∷ [];
    }
    ∷ record {
      params = ec_p384;
      hash = sha384;
      name = "sss:0xEF000031";
      key_id = 0xEF ∷ 0x00 ∷ 0x00 ∷ 0x31 ∷ [];
    }
    ∷ record {
      params = ec_p521;
      hash = sha512;
      name = "sss:0xEF000032";
      key_id = 0xEF ∷ 0x00 ∷ 0x00 ∷ 0x32 ∷ [];
    }
    ∷ []

abbrev pub pub_template : Curve → List Attribute
pub_template c = token true ∷ verify true ∷ ec_params c.params ∷ label c.name ∷ id c.key_id ∷ []

abbrev pub priv_template : Curve → List Attribute
priv_template c = token true ∷ sign true ∷ label c.name ∷ id c.key_id ∷ []

-- The label `next`: the keys are destroyed and the loop goes on with `rc`.
pub ecc_next : (session pub_key priv_key : ℕ) → (rest : ℕ → Demo ℕ) → (rc : ℕ) → Demo ℕ
ecc_next session pub_key priv_key rest rc =
    destroy session priv_key >>= λ h. destroy session pub_key >>= λ h. rest rc

pub ecc_verify :
    (session : ℕ) (c : Curve) (pub_key : ℕ) (sig : List ℕ) (next : ℕ → Demo ℕ) (rc : ℕ) → Demo ℕ
ecc_verify session c pub_key sig next rc =
    let bad = say fail_line >> next 1 in
    on_ok (op_init verifying session (ecdsa c.hash) pub_key) (λ r. bad)
      λ r. on_ok (op_verify session message sig) (λ r. bad) (λ r. say valid_line >> next rc)

pub ecc_sign :
    (session : ℕ) (c : Curve) (pub_key priv_key : ℕ) (next : ℕ → Demo ℕ) (rc : ℕ) → Demo ℕ
ecc_sign session c pub_key priv_key next rc =
    on_ok (op_init signing session (ecdsa c.hash) priv_key) (λ r. say skip_line >> next rc)
      λ r.
        on_ok (op_data signing session message 132) (λ r. say fail_line >> next 1)
          λ r.
            let sig = take r.len (fill [] r) in
            print_hex (fill [] r) r.len >> ecc_verify session c pub_key sig next rc

-- One round of the loop; `rest` are the rounds after it.
pub ecc_round : (session : ℕ) (c : Curve) (rest : ℕ → Demo ℕ) (rc : ℕ) → Demo ℕ
ecc_round session c rest rc =
    on_ok (generate_key_pair session ec_key_pair_gen (pub_template c) (priv_template c))
      (λ r. say skip_line >> rest rc)
      λ r.
        let pub_key = handle_of r in
        let priv_key = handle2_of r in
        let sign =
          ecc_sign session c pub_key priv_key (ecc_next session pub_key priv_key rest) rc in
        on_ok (get_attribute_value session pub_key ec_point_of 200) (λ a. sign)
          (λ a. print_hex (fill [] a) a.len >> sign)

pub ecc_loop : (session : ℕ) → List Curve → (rc : ℕ) → Demo ℕ
ecc_loop session [] rc = ret rc
ecc_loop session (c ∷ cs) rc = ecc_round session c (ecc_loop session cs) rc

unfoldable pub run_ecc : (session : ℕ) → Demo ℕ
unfolding ecc_loop ecc_round ecc_sign ecc_verify ecc_next
run_ecc session = ecc_loop session curves 0
