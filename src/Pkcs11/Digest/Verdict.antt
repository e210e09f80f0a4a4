-- ===== src/Pkcs11/Digest/Verdict.antt =====
-- The return code of `run_digest`, from the replies alone.
use se05x.Base.{ℕ, ◌≡◌, refl, false, List, [], ◌∷◌}
use se05x.Prog.{Device, run}
use se05x.Pkcs11.Cryptoki.{
  ck_invalid_handle, Hash, Call, Reply, fill, digest, op_init, op_data, digesting,
}
use se05x.Pkcs11.Protocol.Rules.{code}
use se05x.Pkcs11.Verdict.{any_fatal}
use se05x.Pkcs11.Verdict.Rules.{Judges, Judges-run, Judges-hard, Judges-soft}
use se05x.Pkcs11.Digest.{digest_loop, run_digest, message, algorithms}

digest_loop-Judges :
    (s : ℕ) (buf : List ℕ) (algs : List Hash) → Judges false (digest_loop s buf algs) false
unfolding digest_loop
digest_loop-Judges s buf [] = refl
digest_loop-Judges s buf (alg ∷ rest) =
    Judges-soft false false _ _ (op_init digesting s (digest alg) ck_invalid_handle) refl
      (λ r.
        Judges-hard false false _ _ (op_data digesting s message 64) refl
          (λ r _ _. digest_loop-Judges s (fill buf r) rest) (λ r _ _. refl))
      (λ r _ _. digest_loop-Judges s buf rest)

-- Whatever the library replies, `run_digest` returns 1 if some C_Digest of its run failed, and 0
-- otherwise: a hash that C_DigestInit refuses is skipped.
pub run_digest_verdict :
    (d : Device Call Reply) (st : d.State) (s : ℕ)
    → (run d (run_digest s) st).value ≡ code (any_fatal false (run d (run_digest s) st).log)
unfolding run_digest
run_digest_verdict d st s = Judges-run false d _ st (digest_loop-Judges s [] algorithms)
