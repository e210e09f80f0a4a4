-- ===== src/Pkcs11/Rsa/Protocol.antt =====
-- `run_rsa` under the rules of PKCS#11.
use se05x.Base.{ℕ, ◌≡◌, refl, true, false, List, [], take, member}
use se05x.Pkcs11.Cryptoki.{
  rsa_pkcs_key_pair_gen, signing, verifying, modulus_of, Demo, handle_of, handle2_of, fill,
}
use se05x.Pkcs11.Protocol.{idle}
use se05x.Pkcs11.Protocol.Rules.{
  within, push, Holds, Leaves, Continues, Holds-generate_key_pair, Holds-get_attribute_value,
  Holds-op_init, Holds-op_data, Holds-op_verify, Holds-destroy, member-push, member-push_below,
}
use se05x.Pkcs11.Rsa.{
  message, pub_template, priv_template, pkcs, pss, rsa_cleanup, rsa_pss, rsa_pkcs1, run_rsa,
}

rsa_cleanup-Leaves :
    (s p v : ℕ) (live : List ℕ) → Continues s live (rsa_cleanup s p v) (push v (push p live))
unfolding rsa_cleanup
rsa_cleanup-Leaves s p v live f =
    Holds-destroy s v (push p live) idle f _ _ (Holds-destroy s p live idle f _ _ (f, refl, refl))

module _ (s p v : ℕ) (live now : List ℕ) (cleanup : ℕ → Demo ℕ) (known : member p now ≡ true)
    (known' : member v now ≡ true) (h : Continues s live cleanup now) where
  rsa_pss-Leaves :
      (sig : List ℕ) → Holds (rsa_pss s p v sig cleanup) (Leaves s live) (within s now idle false)
  unfolding rsa_pss
  rsa_pss-Leaves sig =
      Holds-op_init s now false _ _ _ signing pss v known'
        (λ r.
          Holds-op_data s now false _ _ _ signing pss message 256 refl
            (λ r _ _ _ _.
              Holds-op_init s now false _ _ _ verifying pss p known
                (λ _.
                  Holds-op_verify s now false _ _ _ verifying pss message (take r.len (fill sig r))
                    refl (λ _ _ _. h false) (λ _ _ _. h true))
                (λ _ _ _. h true))
            (λ _ _ _. h true))
        (λ _ _ _. h false)

  rsa_pkcs1-Leaves : Holds (rsa_pkcs1 s p v cleanup) (Leaves s live) (within s now idle false)
  unfolding rsa_pkcs1
  rsa_pkcs1-Leaves =
      Holds-op_init s now false _ _ _ signing pkcs v known'
        (λ r _ _.
          Holds-op_data s now false _ _ _ signing pkcs message 256 refl
            (λ r _ _ _ _ _ _.
              Holds-op_init s now false _ _ _ verifying pkcs p known
                (λ _ _ _.
                  Holds-op_verify s now false _ _ _ verifying pkcs message (take r.len (fill [] r))
                    refl (λ _ _ _ _ _. rsa_pss-Leaves (fill [] r)) (λ _ _ _. h true))
                (λ _ _ _. h true))
            (λ _ _ _. h true))
        (λ _ _ _. h true)

pub run_rsa-Leaves :
    (s : ℕ) (live : List ℕ) → Holds (run_rsa s) (Leaves s live) (within s live idle false)
unfolding run_rsa
run_rsa-Leaves s live =
    Holds-generate_key_pair s live idle false _ _ _ rsa_pkcs_key_pair_gen pub_template priv_template
      (λ r valid valid2 _ _.
        let p = handle_of r in
        let v = handle2_of r in
        let now = push v (push p live) in
        let known = member-push_below p v (push p live) (member-push p live valid) in
        let signed =
          rsa_pkcs1-Leaves s p v live now (rsa_cleanup s p v) known
            (member-push v (push p live) valid2) (rsa_cleanup-Leaves s p v live) in
        Holds-get_attribute_value s now idle false _ _ _ p modulus_of 256 known (λ a _ _. signed)
          (λ a. signed))
      (λ r _ _ _ _. rsa_cleanup-Leaves s (handle_of r) (handle2_of r) live true)
