-- ===== src/Pkcs11/Ecc/Verdict.antt =====
-- The return code of `run_ecc`, from the replies alone.
use se05x.Base.{map, ℕ, ◌≡◌, refl, Bool, true, false, List, [], ◌∷◌, take}
use se05x.Prog.{Device, run}
use se05x.Prog.Hoare.{after}
use se05x.Pkcs11.Ecc.Rounds.{asked, asked_each}
use se05x.Pkcs11.Cryptoki.{
  Call, Reply, Demo, fill, handle_of, handle2_of, ecdsa, ec_key_pair_gen, generate_key_pair,
  get_attribute_value, op_init, op_data, op_verify, signing, verifying, ec_point_of,
}
use se05x.Pkcs11.Protocol.Rules.{code}
use se05x.Pkcs11.Verdict.{any_fatal}
use se05x.Pkcs11.Verdict.Rules.{Judges, Judges-run, Judges-hard, Judges-soft, Judges-destroy}
use se05x.Pkcs11.Ecc.{
  Curve, curves, message, pub_template, priv_template, ecc_next, ecc_verify, ecc_sign, ecc_round,
  ecc_loop, run_ecc,
}

-- The code that follows, called with the return code so far.
abbrev Goes : (ℕ → Demo ℕ) → Type 0
Goes next = (f : Bool) → Judges false (next (code f)) f

ecc_next-Judges : (s p v : ℕ) (rest : ℕ → Demo ℕ) → Goes rest → Goes (ecc_next s p v rest)
unfolding ecc_next
ecc_next-Judges s p v rest h f =
    Judges-destroy false f s v _ (λ _. Judges-destroy false f s p _ (λ _. h f))

ecc_verify-Judges :
    (s : ℕ) (c : Curve) (p : ℕ) (sig : List ℕ) (next : ℕ → Demo ℕ)
    → Goes next
    → Goes (ecc_verify s c p sig next)
unfolding ecc_verify
ecc_verify-Judges s c p sig next h f =
    Judges-hard false f _ _ (op_init verifying s (ecdsa c.hash) p) refl
      (λ r. Judges-hard false f _ _ (op_verify s message sig) refl (λ r _ _. h f) (λ r _ _. h true))
      (λ r _ _. h true)

ecc_sign-Judges :
    (s : ℕ) (c : Curve) (p v : ℕ) (next : ℕ → Demo ℕ) → Goes next → Goes (ecc_sign s c p v next)
unfolding ecc_sign
ecc_sign-Judges s c p v next h f =
    Judges-soft false f _ _ (op_init signing s (ecdsa c.hash) v) refl
      (λ r.
        Judges-hard false f _ _ (op_data signing s message 132) refl
          (λ r _ _. ecc_verify-Judges s c p (take r.len (fill [] r)) next h f) (λ r _ _. h true))
      (λ r _ _. h f)

ecc_loop-Judges : (s : ℕ) (cs : List Curve) → Goes (ecc_loop s cs)
unfolding ecc_loop ecc_round
ecc_loop-Judges s [] f = refl
ecc_loop-Judges s (c ∷ cs) f =
    Judges-soft false f _ _ (generate_key_pair s ec_key_pair_gen (pub_template c) (priv_template c))
      refl
      (λ r.
        let p = handle_of r in
        let v = handle2_of r in
        let signed =
          ecc_sign-Judges s c p v (ecc_next s p v (ecc_loop s cs))
            (ecc_next-Judges s p v (ecc_loop s cs) (ecc_loop-Judges s cs)) f in
        Judges-soft false f _ _ (get_attribute_value s p ec_point_of 200) refl (λ a _ _. signed)
          (λ a. signed))
      (λ r _ _. ecc_loop-Judges s cs f)

-- Whatever the library replies, `run_ecc` asks for a key pair on each of the three curves, in order,
-- and returns 1 if some C_Sign, C_VerifyInit or C_Verify of its run failed, on any of the curves, and 0
-- otherwise.
pub run_ecc_verdict :
    (d : Device Call Reply) (st : d.State) (s : ℕ)
    → (after asked [] (run d (run_ecc s) st).log ≡ map pub_template curves)
      × ((run d (run_ecc s) st).value ≡ code (any_fatal false (run d (run_ecc s) st).log))
unfolding run_ecc
run_ecc_verdict d st s =
    (asked_each d st s, Judges-run false d _ st (ecc_loop-Judges s curves false))
