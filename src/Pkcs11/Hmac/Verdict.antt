-- ===== src/Pkcs11/Hmac/Verdict.antt =====
-- The return code of `run_hmac`, from the replies alone.
use se05x.Base.{ℕ, ◌≡◌, refl, Bool, true, false, List, [], ◌∷◌, take}
use se05x.Prog.{Device, run}
use se05x.Pkcs11.Cryptoki.{
  Hash, Call, Reply, fill, handle_of, hmac, create_object, op_init, op_data, op_verify, signing,
  verifying,
}
use se05x.Pkcs11.Protocol.Rules.{code}
use se05x.Pkcs11.Verdict.{any_fatal}
use se05x.Pkcs11.Verdict.Rules.{Judges, Judges-run, Judges-hard, Judges-soft, Judges-destroy}
use se05x.Pkcs11.Hmac.{message, import_template, algorithms, hmac_loop, hmac_cleanup, run_hmac}

hmac_cleanup-Judges : (s key : ℕ) (f : Bool) → Judges false (hmac_cleanup s key (code f)) f
unfolding hmac_cleanup
hmac_cleanup-Judges s key f = Judges-destroy false f s key _ (λ _. refl)

hmac_loop-Judges :
    (s key : ℕ) (algs : List Hash) → Judges false (hmac_loop s key (hmac_cleanup s key) algs) false
unfolding hmac_loop
hmac_loop-Judges s key [] = hmac_cleanup-Judges s key false
hmac_loop-Judges s key (alg ∷ rest) =
    let again = hmac_loop-Judges s key rest in
    let stop = hmac_cleanup-Judges s key true in
    Judges-soft false false _ _ (op_init signing s (hmac alg) key) refl
      (λ r.
        Judges-hard false false _ _ (op_data signing s message 64) refl
          (λ r _ _.
            Judges-hard false false _ _ (op_init verifying s (hmac alg) key) refl
              (λ _.
                Judges-hard false false _ _ (op_verify s message (take r.len (fill [] r))) refl
                  (λ _ _ _. again) (λ _ _ _. stop))
              (λ _ _ _. stop))
          (λ _ _ _. stop))
      (λ _ _ _. again)

run_hmac-Judges : (s : ℕ) → Judges false (run_hmac s) false
unfolding run_hmac
run_hmac-Judges s =
    Judges-hard false false _ _ (create_object s import_template) refl
      (λ r _ _. hmac_loop-Judges s (handle_of r) algorithms)
      (λ r _ _. hmac_cleanup-Judges s (handle_of r) true)

-- Whatever the library replies, `run_hmac` returns 1 if the C_CreateObject or some C_Sign,
-- C_VerifyInit or C_Verify of its run failed, and 0 otherwise: a hash that C_SignInit refuses is
-- skipped.
pub run_hmac_verdict :
    (d : Device Call Reply) (st : d.State) (s : ℕ)
    → (run d (run_hmac s) st).value ≡ code (any_fatal false (run d (run_hmac s) st).log)
run_hmac_verdict d st s = Judges-run false d _ st (run_hmac-Judges s)
