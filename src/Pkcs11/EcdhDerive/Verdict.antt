-- ===== src/Pkcs11/EcdhDerive/Verdict.antt =====
-- The return code of `run_ecdh_derive`, from the replies alone.
use se05x.Base.{ℕ, ◌≡◌, refl, Bool, true, false, List, [], ◌&&◌, ◌==◌, bytes_eq, replicate, take}
use se05x.Prog.{Device, run}
use se05x.Prog.Hoare.{Wp-if}
use se05x.Pkcs11.Cryptoki.{
  Call, Reply, fill, handle_of, handle2_of, ec_key_pair_gen, generate_key_pair, derive_key,
  get_attribute_value, ec_point_of, value_of, ecdh1_derive,
}
use se05x.Pkcs11.Protocol.Rules.{code}
use se05x.Pkcs11.Verdict.{any_fatal, judge}
use se05x.Pkcs11.Verdict.Rules.{Judges, Judges-run, Judges-hard, Judges-soft, Judges-destroy}
use se05x.Pkcs11.EcdhDerive.{
  alice_label, alice_id, bob_label, bob_id, pub_template, priv_template, derived_template, Handles,
  ecdh_cleanup, bob_derives, alice_derives, exchange, alice_handles, generate_bob, run_ecdh_derive,
}

ecdh_cleanup-Judges : (s : ℕ) (h : Handles) (f : Bool) → Judges true (ecdh_cleanup s h (code f)) f
unfolding ecdh_cleanup
ecdh_cleanup-Judges s h f = Judges-destroy true f s h.shared2 _ λ _.
    Judges-destroy true f s h.shared1 _ λ _. Judges-destroy true f s h.bob_priv _ λ _.
      Judges-destroy true f s h.bob_pub _ λ _.
        Judges-destroy true f s h.alice_priv _ λ _. Judges-destroy true f s h.alice_pub _ λ _. refl

bob_derives-Judges :
    (s : ℕ) (h : Handles) (point value1 : List ℕ) (len1 : ℕ)
    → Judges true (bob_derives s h point value1 len1) false
unfolding bob_derives
bob_derives-Judges s h point value1 len1 =
    Judges-soft true false _ _ (derive_key s (ecdh1_derive point) h.bob_priv derived_template) refl
      (λ r _ _.
        let done = ecdh_cleanup-Judges s (record h { shared2 = handle_of r }) false in
        Judges-soft true false _ _ (get_attribute_value s (handle_of r) value_of 32) refl
          (λ a _ _.
            Wp-if (judge true)
              (len1 == a.len && bytes_eq (take len1 value1) (take len1 (fill (replicate 32 0) a))) _
              _ _ _ (λ _ _ _. done) (λ _ _ _. done))
          (λ a _ _. done))
      (λ r _ _. ecdh_cleanup-Judges s (record h { shared2 = handle_of r }) false)

alice_derives-Judges :
    (s : ℕ) (h : Handles) (bob_point alice_point : List ℕ)
    → Judges true (alice_derives s h bob_point alice_point) false
unfolding alice_derives
alice_derives-Judges s h bob_point alice_point =
    Judges-soft true false _ _ (derive_key s (ecdh1_derive bob_point) h.alice_priv derived_template)
      refl
      (λ r _ _.
        let h' : Handles = record h { shared1 = handle_of r } in
        Judges-soft true false _ _ (get_attribute_value s (handle_of r) value_of 32) refl
          (λ a _ _. bob_derives-Judges s h' alice_point (fill (replicate 32 0) a) a.len)
          (λ a _ _. bob_derives-Judges s h' alice_point (fill (replicate 32 0) a) a.len))
      (λ r _ _. ecdh_cleanup-Judges s (record h { shared1 = handle_of r }) false)

exchange-Judges : (s : ℕ) (h : Handles) → Judges true (exchange s h) false
unfolding exchange
exchange-Judges s h =
    Judges-hard true false _ _ (get_attribute_value s h.bob_pub ec_point_of 200) refl
      (λ b _ _ _ _.
        Judges-hard true false _ _ (get_attribute_value s h.alice_pub ec_point_of 200) refl
          (λ a _ _. alice_derives-Judges s h (take b.len (fill [] b)) (take a.len (fill [] a)))
          (λ a _ _. ecdh_cleanup-Judges s h true))
      (λ b _ _. ecdh_cleanup-Judges s h true)

generate_bob-Judges : (s : ℕ) (h : Handles) → Judges true (generate_bob s h) false
unfolding generate_bob
generate_bob-Judges s h =
    Judges-hard true false _ _
      (generate_key_pair s ec_key_pair_gen (pub_template bob_label bob_id)
        (priv_template bob_label bob_id))
      refl
      (λ r _ _. exchange-Judges s (record h { bob_pub = handle_of r; bob_priv = handle2_of r }))
      (λ r _ _.
        ecdh_cleanup-Judges s (record h { bob_pub = handle_of r; bob_priv = handle2_of r }) true)

run_ecdh_derive-Judges : (s : ℕ) → Judges true (run_ecdh_derive s) false
unfolding run_ecdh_derive
run_ecdh_derive-Judges s =
    Judges-hard true false _ _
      (generate_key_pair s ec_key_pair_gen (pub_template alice_label alice_id)
        (priv_template alice_label alice_id))
      refl (λ r _ _. generate_bob-Judges s (alice_handles (handle_of r) (handle2_of r)))
      (λ r _ _. ecdh_cleanup-Judges s (alice_handles (handle_of r) (handle2_of r)) true)

-- Whatever the library replies, `run_ecdh_derive` returns 1 if one of its two C_GenerateKeyPair
-- calls, or the reading of one of the two public points, failed in its run, and 0 otherwise:
-- neither a refused C_DeriveKey, nor a secret that cannot be read, nor two secrets that differ
-- make it return 1.
pub run_ecdh_derive_verdict :
    (d : Device Call Reply) (st : d.State) (s : ℕ)
    → (run d (run_ecdh_derive s) st).value
      ≡ code (any_fatal true (run d (run_ecdh_derive s) st).log)
run_ecdh_derive_verdict d st s = Judges-run true d _ st (run_ecdh_derive-Judges s)
