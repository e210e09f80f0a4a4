-- ===== src/Pkcs11/Ecc/Protocol.antt =====
-- `run_ecc` under the rules of PKCS#11.
use se05x.Base.{ℕ, ◌≡◌, refl, sym, subst, true, false, List, [], ◌∷◌, take, member}
use se05x.Pkcs11.Cryptoki.{
  ecdsa, ec_key_pair_gen, signing, verifying, ec_point_of, Demo, handle_of, handle2_of, fill,
}
use se05x.Pkcs11.Protocol.{idle}
use se05x.Pkcs11.Protocol.Rules.{
  within, push, Holds, Leaves, Continues, code, Holds-generate_key_pair, Holds-get_attribute_value,
  Holds-op_init, Holds-op_data, Holds-op_verify, Holds-destroy, member-push, member-push_below,
  push-invalid2,
}
use se05x.Pkcs11.Ecc.{
  Curve, curves, message, pub_template, priv_template, ecc_next, ecc_verify, ecc_sign, ecc_round,
  ecc_loop, run_ecc,
}

ecc_next-Leaves :
    (s p v : ℕ) (live : List ℕ) (rest : ℕ → Demo ℕ)
    → Continues s live rest live
    → Continues s live (ecc_next s p v rest) (push v (push p live))
unfolding ecc_next
ecc_next-Leaves s p v live rest h f =
    Holds-destroy s v (push p live) idle f _ _ (Holds-destroy s p live idle f _ _ (h f))

ecc_verify-Leaves :
    (s : ℕ) (c : Curve) (p : ℕ) (sig live now : List ℕ) (next : ℕ → Demo ℕ)
    → member p now ≡ true
    → Continues s live next now
    → Continues s live (ecc_verify s c p sig next) now
unfolding ecc_verify
ecc_verify-Leaves s c p sig live now next known h f =
    Holds-op_init s now f _ _ _ verifying (ecdsa c.hash) p known
      (λ r.
        Holds-op_verify s now f _ _ _ verifying (ecdsa c.hash) message sig refl (λ r _ _. h f)
          (λ r _ _. h true))
      (λ r _ _. h true)

ecc_sign-Leaves :
    (s : ℕ) (c : Curve) (p v : ℕ) (live now : List ℕ) (next : ℕ → Demo ℕ)
    → member p now ≡ true
    → member v now ≡ true
    → Continues s live next now
    → Continues s live (ecc_sign s c p v next) now
unfolding ecc_sign
ecc_sign-Leaves s c p v live now next known known' h f =
    Holds-op_init s now f _ _ _ signing (ecdsa c.hash) v known'
      (λ r.
        Holds-op_data s now f _ _ _ signing (ecdsa c.hash) message 132 refl
          (λ r _ _ _ _. ecc_verify-Leaves s c p (take r.len (fill [] r)) live now next known h f)
          (λ r _ _. h true))
      (λ r _ _. h f)

ecc_round-Leaves :
    (s : ℕ) (c : Curve) (live : List ℕ) (rest : ℕ → Demo ℕ)
    → Continues s live rest live
    → Continues s live (ecc_round s c rest) live
unfolding ecc_round
ecc_round-Leaves s c live rest h f =
    Holds-generate_key_pair s live idle f _ _ _ ec_key_pair_gen (pub_template c) (priv_template c)
      (λ r valid valid2.
        let p = handle_of r in
        let v = handle2_of r in
        let now = push v (push p live) in
        let known = member-push_below p v (push p live) (member-push p live valid) in
        let signed =
          ecc_sign-Leaves s c p v live now (ecc_next s p v rest) known
            (member-push v (push p live) valid2) (ecc_next-Leaves s p v live rest h) f in
        Holds-get_attribute_value s now idle f _ _ _ p ec_point_of 200 known (λ a _ _. signed)
          (λ a. signed))
      (λ r e e2 _ _.
        subst (λ now. Holds (rest (code f)) (Leaves s live) (within s now idle f))
          (sym (push-invalid2 (handle2_of r) (handle_of r) live e2 e)) (h f))

ecc_loop-Leaves : (s : ℕ) (live : List ℕ) (cs : List Curve) → Continues s live (ecc_loop s cs) live
unfolding ecc_loop
ecc_loop-Leaves s live [] f = (f, refl, refl)
ecc_loop-Leaves s live (c ∷ cs) f =
    ecc_round-Leaves s c live (ecc_loop s cs) (ecc_loop-Leaves s live cs) f

pub run_ecc-Leaves :
    (s : ℕ) (live : List ℕ) → Holds (run_ecc s) (Leaves s live) (within s live idle false)
unfolding run_ecc
run_ecc-Leaves s live = ecc_loop-Leaves s live curves false
