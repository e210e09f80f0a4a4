-- ===== src/Pkcs11/EcdhDerive/Protocol.antt =====
-- `run_ecdh_derive` under the rules of PKCS#11.
use se05x.Base.{ℕ, ◌≡◌, refl, true, false, List, [], ◌&&◌, ◌==◌, bytes_eq, take, replicate}
use se05x.Prog.Hoare.{Wp-if}
use se05x.Pkcs11.Cryptoki.{
  ck_invalid_handle, ec_key_pair_gen, ecdh1_derive, ec_point_of, value_of, handle_of, handle2_of,
  fill,
}
use se05x.Pkcs11.Protocol.{idle, protocol}
use se05x.Pkcs11.Protocol.Rules.{
  within, push, Holds, Leaves, Continues, Holds-generate_key_pair, Holds-derive_key,
  Holds-get_attribute_value, Holds-destroy, member-push, member-push_below,
}
use se05x.Pkcs11.EcdhDerive.{
  alice_label, alice_id, bob_label, bob_id, pub_template, priv_template, derived_template, Handles,
  ecdh_cleanup, bob_derives, alice_derives, exchange, alice_handles, generate_bob, run_ecdh_derive,
}

-- What is live, in the order of creation from the bottom.
abbrev held : Handles → List ℕ → List ℕ
held h live =
    push h.shared2 (
      push h.shared1 (push h.bob_priv (push h.bob_pub (push h.alice_priv (push h.alice_pub live)))))

ecdh_cleanup-Leaves :
    (s : ℕ) (live : List ℕ) (h : Handles) → Continues s live (ecdh_cleanup s h) (held h live)
unfolding ecdh_cleanup
ecdh_cleanup-Leaves s live h f = Holds-destroy s h.shared2 _ idle f _ _ (
    Holds-destroy s h.shared1 _ idle f _ _ (
      Holds-destroy s h.bob_priv _ idle f _ _ (
        Holds-destroy s h.bob_pub _ idle f _ _ (
          Holds-destroy s h.alice_priv _ idle f _ _
            (Holds-destroy s h.alice_pub live idle f _ _ (f, refl, refl))))))

module _ (s : ℕ) (live : List ℕ) (a b c d : ℕ) (valid_a : (a == ck_invalid_handle) ≡ false)
    (valid_b : (b == ck_invalid_handle) ≡ false) (valid_c : (c == ck_invalid_handle) ≡ false)
    (valid_d : (d == ck_invalid_handle) ≡ false) where
  -- The handles once Alice has derived.
  abbrev derived : ℕ → ℕ → Handles
  derived x y = record {
    alice_pub = a;
    alice_priv = b;
    bob_pub = c;
    bob_priv = d;
    shared1 = x;
    shared2 = y;
  }

  bob_derives-Leaves :
      (x : ℕ) (point value1 : List ℕ) (len1 : ℕ)
      → Holds
          (bob_derives s (derived x 0) point value1 len1)
          (Leaves s live)
          (within s (held (derived x 0) live) idle false)
  unfolding bob_derives
  bob_derives-Leaves x point value1 len1 =
      let now = held (derived x 0) live in
      Holds-derive_key s now idle false _ _ _ (ecdh1_derive point) d derived_template
        (member-push_below d x _ (member-push d _ valid_d))
        (λ r valid _ _.
          let done = ecdh_cleanup-Leaves s live (derived x (handle_of r)) false in
          Holds-get_attribute_value s (push (handle_of r) now) idle false _ _ _ (handle_of r)
            value_of 32 (member-push (handle_of r) now valid)
            (λ v _ _.
              Wp-if protocol
                (len1 == v.len && bytes_eq (take len1 value1) (take len1 (fill (replicate 32 0) v)))
                _ _ _ _ (λ _ _ _. done) (λ _ _ _. done))
            (λ v _ _. done))
        (λ r _ _ _. ecdh_cleanup-Leaves s live (derived x (handle_of r)) false)

  alice_derives-Leaves :
      (bob_point alice_point : List ℕ)
      → Holds
          (alice_derives s (derived 0 0) bob_point alice_point)
          (Leaves s live)
          (within s (held (derived 0 0) live) idle false)
  unfolding alice_derives
  alice_derives-Leaves bob_point alice_point =
      let now = held (derived 0 0) live in
      Holds-derive_key s now idle false _ _ _ (ecdh1_derive bob_point) b derived_template
        (member-push_below b d _ (member-push_below b c _ (member-push b _ valid_b)))
        (λ r valid _ _.
          Holds-get_attribute_value s (push (handle_of r) now) idle false _ _ _ (handle_of r)
            value_of 32 (member-push (handle_of r) now valid)
            (λ v _ _. bob_derives-Leaves (handle_of r) alice_point (fill (replicate 32 0) v) v.len)
            (λ v _ _. bob_derives-Leaves (handle_of r) alice_point (fill (replicate 32 0) v) v.len))
        (λ r _ _ _. ecdh_cleanup-Leaves s live (derived (handle_of r) 0) false)

  exchange-Leaves :
      Holds
        (exchange s (derived 0 0))
        (Leaves s live)
        (within s (held (derived 0 0) live) idle false)
  unfolding exchange
  exchange-Leaves =
      let now = held (derived 0 0) live in
      Holds-get_attribute_value s now idle false _ _ _ c ec_point_of 200
        (member-push_below c d _ (member-push c _ valid_c))
        (λ p _ _ _ _.
          Holds-get_attribute_value s now idle false _ _ _ a ec_point_of 200
            (member-push_below a d _
              (member-push_below a c _ (member-push_below a b _ (member-push a live valid_a))))
            (λ q _ _. alice_derives-Leaves (take p.len (fill [] p)) (take q.len (fill [] q)))
            (λ q _ _. ecdh_cleanup-Leaves s live (derived 0 0) true))
        (λ p _ _. ecdh_cleanup-Leaves s live (derived 0 0) true)

generate_bob-Leaves :
    (s : ℕ) (live : List ℕ) (a b : ℕ)
    → (a == ck_invalid_handle) ≡ false
    → (b == ck_invalid_handle) ≡ false
    → Holds
        (generate_bob s (alice_handles a b))
        (Leaves s live)
        (within s (push b (push a live)) idle false)
unfolding generate_bob
generate_bob-Leaves s live a b valid_a valid_b =
    Holds-generate_key_pair s (push b (push a live)) idle false _ _ _ ec_key_pair_gen
      (pub_template bob_label bob_id) (priv_template bob_label bob_id)
      (λ r valid_c valid_d _ _.
        exchange-Leaves s live a b (handle_of r) (handle2_of r) valid_a valid_b valid_c valid_d)
      (λ r _ _ _ _.
        ecdh_cleanup-Leaves s live
          (record (alice_handles a b) { bob_pub = handle_of r; bob_priv = handle2_of r }) true)

pub run_ecdh_derive-Leaves :
    (s : ℕ) (live : List ℕ) → Holds (run_ecdh_derive s) (Leaves s live) (within s live idle false)
unfolding run_ecdh_derive
run_ecdh_derive-Leaves s live =
    Holds-generate_key_pair s live idle false _ _ _ ec_key_pair_gen
      (pub_template alice_label alice_id) (priv_template alice_label alice_id)
      (λ r valid_a valid_b _ _.
        generate_bob-Leaves s live (handle_of r) (handle2_of r) valid_a valid_b)
      (λ r _ _ _ _. ecdh_cleanup-Leaves s live (alice_handles (handle_of r) (handle2_of r)) true)
