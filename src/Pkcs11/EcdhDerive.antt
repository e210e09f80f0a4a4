-- ===== src/Pkcs11/EcdhDerive.antt =====
-- demo_ecdh_derive.c: two EC P-256 key pairs, and the shared secret derived from either side.
pub mod Protocol
pub mod Verdict
use se05x.Base.{
  ℕ, String, true, false, List, [], ◌∷◌, ◌&&◌, ◌==◌, bytes_eq, if◌then◌else◌, take, replicate,
}
use se05x.Prog.{ret, ◌>>=◌, ◌>>◌}
use se05x.Pkcs11.Cryptoki.{
  ck_invalid_handle, ec_key_pair_gen, ecdh1_derive, Attribute, object_class, key_type, token,
  derive, sensitive, extractable, value_len, ec_params, label, id, secret_key, generic_secret,
  ec_point_of, value_of, skip_line, ok_line, match_line, differ_line, stored_line,
  generate_key_pair, derive_key, get_attribute_value, Demo, handle_of, handle2_of, fill, say, on_ok,
  ck_check, destroy, print_hex, ec_p256,
}

abbrev pub alice_label : String
alice_label = "sss:0xEF000070"

abbrev pub alice_id : List ℕ
alice_id = 0xEF ∷ 0x00 ∷ 0x00 ∷ 0x70 ∷ []

abbrev pub bob_label : String
bob_label = "sss:0xEF000071"

abbrev pub bob_id : List ℕ
bob_id = 0xEF ∷ 0x00 ∷ 0x00 ∷ 0x71 ∷ []

abbrev pub pub_template : String → List ℕ → List Attribute
pub_template name key_id = token true ∷ ec_params ec_p256 ∷ label name ∷ id key_id ∷ []

abbrev pub priv_template : String → List ℕ → List Attribute
priv_template name key_id = token true ∷ derive true ∷ label name ∷ id key_id ∷ []

abbrev pub derived_template : List Attribute
derived_template =
    object_class secret_key
    ∷ key_type generic_secret
    ∷ token false
    ∷ sensitive false
    ∷ extractable true
    ∷ value_len 32
    ∷ []

-- The handle variables of the function.
pub record Handles : Type 0 where
  pub alice_pub : ℕ
  pub alice_priv : ℕ
  pub bob_pub : ℕ
  pub bob_priv : ℕ
  pub shared1 : ℕ
  pub shared2 : ℕ

-- The label `cleanup`.
pub ecdh_cleanup : (session : ℕ) → Handles → (rc : ℕ) → Demo ℕ
ecdh_cleanup session h rc = destroy session h.shared2 >>= λ _. destroy session h.shared1 >>= λ _.
    destroy session h.bob_priv >>= λ _. destroy session h.bob_pub >>= λ _.
    destroy session h.alice_priv >>= λ _. destroy session h.alice_pub >>= λ _. ret rc

-- Bob derives, and the secrets are compared: `value1` is the buffer of Alice's, `len1` its length.
pub bob_derives : (session : ℕ) (h : Handles) (alice_point value1 : List ℕ) (len1 : ℕ) → Demo ℕ
bob_derives session h alice_point value1 len1 =
    on_ok (derive_key session (ecdh1_derive alice_point) h.bob_priv derived_template)
      (λ r. say skip_line >> ecdh_cleanup session (record h { shared2 = handle_of r }) 0)
      λ r.
        let done = ecdh_cleanup session (record h { shared2 = handle_of r }) 0 in
        say ok_line
        >> on_ok (get_attribute_value session (handle_of r) value_of 32)
            (λ a. say stored_line >> done)
            λ a.
              let value2 = fill (replicate 32 0) a in
              print_hex value2 a.len
              >> (if len1 == a.len && bytes_eq (take len1 value1) (take len1 value2)
                  then say match_line >> done
                  else (say differ_line >> done))

-- Alice derives; her secret may not be extractable, and then its buffer stays as it was.
pub alice_derives : (session : ℕ) (h : Handles) (bob_point alice_point : List ℕ) → Demo ℕ
alice_derives session h bob_point alice_point =
    on_ok (derive_key session (ecdh1_derive bob_point) h.alice_priv derived_template)
      (λ r. say skip_line >> ecdh_cleanup session (record h { shared1 = handle_of r }) 0)
      λ r.
        let h' = record h { shared1 = handle_of r } in
        say ok_line
        >> on_ok (get_attribute_value session (handle_of r) value_of 32)
            (λ a.
              say stored_line >> bob_derives session h' alice_point (fill (replicate 32 0) a) a.len)
            (λ a.
              print_hex (fill (replicate 32 0) a) a.len
              >> bob_derives session h' alice_point (fill (replicate 32 0) a) a.len)

-- The public points of both are read.
pub exchange : (session : ℕ) → Handles → Demo ℕ
exchange session h =
    ck_check (get_attribute_value session h.bob_pub ec_point_of 200) (λ b. ecdh_cleanup session h 1)
      λ b.
        print_hex (fill [] b) b.len
        >> ck_check (get_attribute_value session h.alice_pub ec_point_of 200)
            (λ a. ecdh_cleanup session h 1)
            (λ a. alice_derives session h (take b.len (fill [] b)) (take a.len (fill [] a)))

abbrev pub alice_handles : (pub_key priv_key : ℕ) → Handles
alice_handles pub_key priv_key = record {
  alice_pub = pub_key;
  alice_priv = priv_key;
  bob_pub = ck_invalid_handle;
  bob_priv = ck_invalid_handle;
  shared1 = ck_invalid_handle;
  shared2 = ck_invalid_handle;
}

pub generate_bob : (session : ℕ) → Handles → Demo ℕ
generate_bob session h =
    ck_check
      (generate_key_pair session ec_key_pair_gen (pub_template bob_label bob_id)
        (priv_template bob_label bob_id))
      (λ r. ecdh_cleanup session (record h { bob_pub = handle_of r; bob_priv = handle2_of r }) 1)
      (λ r. exchange session (record h { bob_pub = handle_of r; bob_priv = handle2_of r }))

unfoldable pub run_ecdh_derive : (session : ℕ) → Demo ℕ
unfolding ecdh_cleanup bob_derives alice_derives exchange generate_bob
run_ecdh_derive session =
    ck_check
      (generate_key_pair session ec_key_pair_gen (pub_template alice_label alice_id)
        (priv_template alice_label alice_id))
      (λ r. ecdh_cleanup session (alice_handles (handle_of r) (handle2_of r)) 1)
      (λ r. generate_bob session (alice_handles (handle_of r) (handle2_of r)))
