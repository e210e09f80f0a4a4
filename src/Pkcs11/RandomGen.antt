-- ===== src/Pkcs11/RandomGen.antt =====
-- demo_random_gen.c: C_GenerateRandom for several buffer sizes.
pub mod Protocol
pub mod Verdict
use se05x.Base.{ℕ, List, [], ◌∷◌, ◌++◌, drop, replicate}
use se05x.Prog.{ret, ◌>>◌}
use se05x.Pkcs11.Cryptoki.{generate_random, Demo, fill, print_hex, ck_check}

-- kSizes
abbrev pub sizes : List ℕ
sizes = 1 ∷ 16 ∷ 32 ∷ 64 ∷ 128 ∷ 512 ∷ 1024 ∷ []

-- The loop, with the buffer as the rounds before left it.
pub random_loop : (session : ℕ) (buf : List ℕ) (sizes : List ℕ) → Demo ℕ
random_loop session buf [] = ret 0
random_loop session buf (len ∷ sizes) =
    let cleared = replicate len 0 ++ drop len buf in
    ck_check (generate_random session len) (λ r. ret 1)
      (λ r. print_hex (fill cleared r) len >> random_loop session (fill cleared r) sizes)

unfoldable pub run_random_gen : (session : ℕ) → Demo ℕ
unfolding random_loop
run_random_gen session = random_loop session [] sizes
