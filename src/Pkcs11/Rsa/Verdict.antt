-- ===== src/Pkcs11/Rsa/Verdict.antt =====
-- The return code of `run_rsa`, from the replies alone.
use se05x.Base.{ℕ, ◌≡◌, refl, Bool, true, false, List, [], take}
use se05x.Prog.{Device, run}
use se05x.Pkcs11.Cryptoki.{
  Call, Reply, fill, handle_of, handle2_of, rsa_pkcs_key_pair_gen, generate_key_pair,
  get_attribute_value, op_init, op_data, op_verify, signing, verifying, modulus_of,
}
use se05x.Pkcs11.Protocol.Rules.{code}
use se05x.Pkcs11.Verdict.{any_fatal}
use se05x.Pkcs11.Verdict.Rules.{Judges, Judges-run, Judges-hard, Judges-soft, Judges-destroy}
use se05x.Pkcs11.Rsa.{
  message, pub_template, priv_template, pkcs, pss, rsa_cleanup, rsa_pss, rsa_pkcs1, run_rsa,
}

rsa_cleanup-Judges : (s p v : ℕ) (f : Bool) → Judges true (rsa_cleanup s p v (code f)) f
unfolding rsa_cleanup
rsa_cleanup-Judges s p v f =
    Judges-destroy true f s v _ (λ _. Judges-destroy true f s p _ (λ _. refl))

module _ (s p v : ℕ) where
  rsa_pss-Judges : (sig : List ℕ) → Judges true (rsa_pss s p v sig (rsa_cleanup s p v)) false
  unfolding rsa_pss
  rsa_pss-Judges sig =
      let stop = rsa_cleanup-Judges s p v true in
      Judges-soft true false _ _ (op_init signing s pss v) refl
        (λ r.
          Judges-hard true false _ _ (op_data signing s message 256) refl
            (λ r _ _.
              Judges-hard true false _ _ (op_init verifying s pss p) refl
                (λ _.
                  Judges-hard true false _ _ (op_verify s message (take r.len (fill sig r))) refl
                    (λ _ _ _. rsa_cleanup-Judges s p v false) (λ _ _ _. stop))
                (λ _ _ _. stop))
            (λ _ _ _. stop))
        (λ _ _ _. rsa_cleanup-Judges s p v false)

  rsa_pkcs1-Judges : Judges true (rsa_pkcs1 s p v (rsa_cleanup s p v)) false
  unfolding rsa_pkcs1
  rsa_pkcs1-Judges =
      let stop = rsa_cleanup-Judges s p v true in
      Judges-hard true false _ _ (op_init signing s pkcs v) refl
        (λ r _ _.
          Judges-hard true false _ _ (op_data signing s message 256) refl
            (λ r _ _ _ _.
              Judges-hard true false _ _ (op_init verifying s pkcs p) refl
                (λ _ _ _.
                  Judges-hard true false _ _ (op_verify s message (take r.len (fill [] r))) refl
                    (λ _ _ _ _ _. rsa_pss-Judges (fill [] r)) (λ _ _ _. stop))
                (λ _ _ _. stop))
            (λ _ _ _. stop))
        (λ _ _ _. stop)

run_rsa-Judges : (s : ℕ) → Judges true (run_rsa s) false
unfolding run_rsa
run_rsa-Judges s =
    Judges-hard true false _ _
      (generate_key_pair s rsa_pkcs_key_pair_gen pub_template priv_template) refl
      (λ r _ _.
        let signed = rsa_pkcs1-Judges s (handle_of r) (handle2_of r) in
        Judges-soft true false _ _ (get_attribute_value s (handle_of r) modulus_of 256) refl
          (λ a _ _. signed) (λ a. signed))
      (λ r _ _. rsa_cleanup-Judges s (handle_of r) (handle2_of r) true)

-- Whatever the library replies, `run_rsa` returns 1 if in its run C_GenerateKeyPair, the
-- C_SignInit of PKCS#1 v1.5, or some C_Sign, C_VerifyInit or C_Verify failed, and 0 otherwise:
-- PSS is skipped if C_SignInit refuses it, and the modulus need not be readable.
pub run_rsa_verdict :
    (d : Device Call Reply) (st : d.State) (s : ℕ)
    → (run d (run_rsa s) st).value ≡ code (any_fatal true (run d (run_rsa s) st).log)
run_rsa_verdict d st s = Judges-run true d _ st (run_rsa-Judges s)
