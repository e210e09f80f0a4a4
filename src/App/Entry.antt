-- ===== src/App/Entry.antt =====
-- ex_sss_entry of app/demo_se051.c.
use se05x.Base.{ℕ, List, [], ◌∷◌, ◌==◌, if◌then◌else◌}
use se05x.Prog.{ret, ◌>>=◌}
use se05x.App.Sss.{Sss, success}
use se05x.App.Rng.{demo_rng}
use se05x.App.Keys.{demo_ec_keygen, demo_rsa_keygen}
use se05x.App.SignVerify.{demo_ec_sign_verify, demo_rsa_sign_verify}
use se05x.App.Ecdh.{demo_ec_ecdh}
use se05x.App.EncDec.{demo_rsa_enc_dec}
use se05x.App.Csr.{demo_ec_csr, demo_rsa_csr}

-- RUN of each demo in turn, up to the first that does not succeed.
unfoldable pub run_demos : List (Sss ℕ) → (status : ℕ) → Sss ℕ
run_demos [] status = ret status
run_demos (demo ∷ rest) status =
    demo >>= λ s. let next = run_demos rest s in if s == success then next else ret s

abbrev pub demos : List (Sss ℕ)
demos =
    demo_rng ∷ demo_ec_keygen ∷ demo_ec_sign_verify ∷ demo_ec_ecdh ∷ demo_ec_csr ∷ demo_rsa_keygen
    ∷ demo_rsa_sign_verify ∷ demo_rsa_enc_dec ∷ demo_rsa_csr ∷ []

unfoldable pub ex_sss_entry : Sss ℕ
unfolding run_demos
ex_sss_entry = run_demos demos success
