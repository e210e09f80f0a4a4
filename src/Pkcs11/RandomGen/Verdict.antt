-- ===== src/Pkcs11/RandomGen/Verdict.antt =====
-- The return code of `run_random_gen`, from the replies alone.
use se05x.Base.{ℕ, ◌≡◌, refl, false, List, [], ◌∷◌, ◌++◌, drop, replicate}
use se05x.Prog.{Device, run}
use se05x.Pkcs11.Cryptoki.{Call, Reply, fill, generate_random}
use se05x.Pkcs11.Protocol.Rules.{code}
use se05x.Pkcs11.Verdict.{any_fatal}
use se05x.Pkcs11.Verdict.Rules.{Judges, Judges-run, Judges-hard}
use se05x.Pkcs11.RandomGen.{random_loop, run_random_gen, sizes}

random_loop-Judges : (s : ℕ) (buf sizes : List ℕ) → Judges false (random_loop s buf sizes) false
unfolding random_loop
random_loop-Judges s buf [] = refl
random_loop-Judges s buf (len ∷ sizes) =
    Judges-hard false false _ _ (generate_random s len) refl
      (λ r _ _ _ _. random_loop-Judges s (fill (replicate len 0 ++ drop len buf) r) sizes)
      (λ r _ _. refl)

-- Whatever the library replies, `run_random_gen` returns 1 if some C_GenerateRandom of its run
-- failed, and 0 otherwise.
pub run_random_gen_verdict :
    (d : Device Call Reply) (st : d.State) (s : ℕ)
    → (run d (run_random_gen s) st).value ≡ code (any_fatal false (run d (run_random_gen s) st).log)
unfolding run_random_gen
run_random_gen_verdict d st s = Judges-run false d _ st (random_loop-Judges s [] sizes)
