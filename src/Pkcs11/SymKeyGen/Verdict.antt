-- ===== src/Pkcs11/SymKeyGen/Verdict.antt =====
-- The return code of `run_sym_key_gen`, from the replies alone.
use se05x.Base.{ℕ, ◌≡◌, refl, false, List, [], ◌∷◌}
use se05x.Prog.{Device, run}
use se05x.Pkcs11.Cryptoki.{
  Call, Reply, Demo, handle_of, aes_key_gen, generic_secret_key_gen, generate_key,
}
use se05x.Pkcs11.Protocol.Rules.{code}
use se05x.Pkcs11.Verdict.{any_fatal}
use se05x.Pkcs11.Verdict.Rules.{Judges, Judges-run, Judges-hard, Judges-destroy}
use se05x.Pkcs11.SymKeyGen.{
  AesKey, aes_keys, aes_template, secret_template, aes_loop, generic_secret, run_sym_key_gen,
}

aes_loop-Judges :
    (s : ℕ) (after : Demo ℕ) (keys : List AesKey)
    → Judges false after false
    → Judges false (aes_loop s after keys) false
unfolding aes_loop
aes_loop-Judges s after [] h = h
aes_loop-Judges s after (k ∷ keys) h =
    Judges-hard false false _ _ (generate_key s aes_key_gen (aes_template k)) refl
      (λ r _ _. Judges-destroy false false s (handle_of r) _ (λ _. aes_loop-Judges s after keys h))
      (λ r _ _. refl)

generic_secret-Judges : (s : ℕ) → Judges false (generic_secret s) false
unfolding generic_secret
generic_secret-Judges s =
    Judges-hard false false _ _ (generate_key s generic_secret_key_gen secret_template) refl
      (λ r _ _. Judges-destroy false false s (handle_of r) _ (λ _. refl)) (λ r _ _. refl)

-- Whatever the library replies, `run_sym_key_gen` returns 1 if some C_GenerateKey of its run
-- failed, and 0 otherwise: a failing C_DestroyObject is passed over.
pub run_sym_key_gen_verdict :
    (d : Device Call Reply) (st : d.State) (s : ℕ)
    → (run d (run_sym_key_gen s) st).value
      ≡ code (any_fatal false (run d (run_sym_key_gen s) st).log)
unfolding run_sym_key_gen
run_sym_key_gen_verdict d st s =
    Judges-run false d _ st
      (aes_loop-Judges s (generic_secret s) aes_keys (generic_secret-Judges s))
