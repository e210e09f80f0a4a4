-- ===== src/Pkcs11/RandomGen/Protocol.antt =====
-- `run_random_gen` under the rules of PKCS#11, and the calls that it makes.
use se05x.Base.{ℕ, ◌≡◌, refl, Bool, ◌&&◌, true, false, List, [], ◌∷◌, ◌++◌, drop, replicate}
use se05x.Prog.{Device, run}
use se05x.Prog.Hoare.{Watch, Wp, Wp-if, Wp-run, after, all_honest}
use se05x.Pkcs11.Cryptoki.{Call, Reply, generate_random, print, is_ok, fill}
use se05x.Pkcs11.Protocol.{idle}
use se05x.Pkcs11.Protocol.Rules.{within, Holds, Leaves, Holds-generate_random}
use se05x.Pkcs11.RandomGen.{random_loop, run_random_gen, sizes}

random_loop-Leaves :
    (s : ℕ) (live buf sizes : List ℕ)
    → Holds (random_loop s buf sizes) (Leaves s live) (within s live idle false)
unfolding random_loop
random_loop-Leaves s live buf [] = (false, refl, refl)
random_loop-Leaves s live buf (len ∷ sizes) =
    Holds-generate_random s live idle false _ _ _ len
      (λ r _ _ _ _. random_loop-Leaves s live (fill (replicate len 0 ++ drop len buf) r) sizes)
      (λ r _ _. (true, refl, refl))

pub run_random_gen-Leaves :
    (s : ℕ) (live : List ℕ) → Holds (run_random_gen s) (Leaves s live) (within s live idle false)
unfolding run_random_gen
run_random_gen-Leaves s live = random_loop-Leaves s live [] sizes

-- Random bytes are drawn, or a line is printed.
abbrev draws : Call → Bool
draws (generate_random s room) = true
draws (print l) = true
draws _ = false

-- All calls so far only draw or print.
abbrev pub drawing : Watch Call Reply Bool
drawing = record { step = λ b c r. b && draws c; honest = λ b c r. true }

random_loop-draws :
    (s : ℕ) (buf sizes : List ℕ) → Wp drawing (random_loop s buf sizes) (λ rc b. b ≡ true) true
unfolding random_loop
random_loop-draws s buf [] = refl
random_loop-draws s buf (len ∷ sizes) = λ r _.
    Wp-if drawing (is_ok r) _ _ (λ rc b. b ≡ true) true
      (λ _ _ _ _ _. random_loop-draws s (fill (replicate len 0 ++ drop len buf) r) sizes)
      (λ _ _ _. refl)

honest-drawing : (b : Bool) (t : List (Call × Reply)) → all_honest drawing b t ≡ true
honest-drawing b [] = refl
honest-drawing b ((c, r) ∷ t) = honest-drawing (b && draws c) t

pub run_random_gen-draws :
    (d : Device Call Reply) (st : d.State) (s : ℕ)
    → after drawing true (run d (run_random_gen s) st).log ≡ true
unfolding run_random_gen
run_random_gen-draws d st s =
    Wp-run drawing d (random_loop s [] sizes) (λ rc b. b ≡ true) true st
      (random_loop-draws s [] sizes) (honest-drawing true (run d (random_loop s [] sizes) st).log)
