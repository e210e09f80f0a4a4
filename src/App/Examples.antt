-- ===== src/App/Examples.antt =====
-- A library for the functions of app/, and the theorems at runs against it.
use se05x.Base.{ℕ, ◌≡◌, refl, List, [], ◌∷◌, length, replicate}
use se05x.Prog.{Device, run}
use se05x.App.Sss.{
  Call, Reply, success, fail, get_random, digest_one_go, sign_digest, encrypt, decrypt, get_key,
  asn1_write, write_names, pem_write_buffer, sha256_ret,
}
use se05x.App.EncDec.{plaintext, demo_rsa_enc_dec}
use se05x.App.Rng.{demo_rng}
use se05x.App.Keys.{demo_ec_keygen, demo_rsa_keygen}
use se05x.App.SignVerify.{demo_ec_sign_verify, demo_rsa_sign_verify}
use se05x.App.Ecdh.{demo_ec_ecdh}
use se05x.App.Csr.{demo_ec_csr, demo_rsa_csr}
use se05x.App.Entry.{ex_sss_entry}
use se05x.App.Watching.{Closed, Ends}
use se05x.App.Runs.{
  seen, ex_sss_entry_life, demo_ec_csr_life, demo_rsa_csr_life, demo_ec_ecdh_life,
  demo_rsa_enc_dec_life, demo_ec_sign_verify_life, demo_rsa_sign_verify_life, demo_ec_keygen_life,
  demo_rsa_keygen_life, demo_rng_life,
}

abbrev wrote : List ℕ → Reply
wrote bytes = record { status = success; bytes = bytes; len = length bytes }

-- Everything succeeds; a writer writes two bytes.
abbrev answer_well : Call → Reply
answer_well (get_random n) = wrote (replicate n 7)
answer_well (digest_one_go input room) = wrote (replicate 32 1)
answer_well (sha256_ret input) = wrote (replicate 32 1)
answer_well (sign_digest digest room) = wrote (replicate 70 2)
answer_well (encrypt input room) = wrote (replicate 256 3)
answer_well (decrypt input room) = wrote plaintext
answer_well (get_key v room) = wrote (replicate 60 4)
answer_well (asn1_write w room) = wrote (1 ∷ 2 ∷ [])
answer_well (write_names room) = wrote (1 ∷ 2 ∷ 3 ∷ [])
answer_well (pem_write_buffer input room) = wrote (replicate 50 5)
answer_well _ = wrote []

abbrev se051 : Device Call Reply
se051 = record { State = Unit {0}; answer = λ s c. (answer_well c, s) }

-- The writers of mbedTLS fail for want of room.
abbrev answer_full : Call → Reply
answer_full (asn1_write w room) = record { status = fail; bytes = []; len = 0 }
answer_full c = answer_well c

abbrev full : Device Call Reply
full = record { State = Unit {0}; answer = λ s c. (answer_full c, s) }

-- All demos pass.
entry_passes : (run se051 ex_sss_entry tt).value ≡ success
unfolding run ex_sss_entry demo_rng demo_ec_keygen demo_ec_sign_verify demo_ec_ecdh demo_ec_csr
    demo_rsa_keygen demo_rsa_sign_verify demo_rsa_enc_dec demo_rsa_csr
entry_passes = refl

ex_sss_entry_life_example : Ends (run se051 ex_sss_entry tt).value (seen se051 ex_sss_entry tt)
ex_sss_entry_life_example = ex_sss_entry_life se051 tt

demo_ec_csr_life_example : Ends (run se051 demo_ec_csr tt).value (seen se051 demo_ec_csr tt)
demo_ec_csr_life_example = demo_ec_csr_life se051 tt

demo_rsa_csr_life_example : Ends (run full demo_rsa_csr tt).value (seen full demo_rsa_csr tt)
demo_rsa_csr_life_example = demo_rsa_csr_life full tt

demo_ec_ecdh_life_example : Closed (run se051 demo_ec_ecdh tt).value (seen se051 demo_ec_ecdh tt)
demo_ec_ecdh_life_example = demo_ec_ecdh_life se051 tt

demo_rsa_enc_dec_life_example :
    Closed (run se051 demo_rsa_enc_dec tt).value (seen se051 demo_rsa_enc_dec tt)
demo_rsa_enc_dec_life_example = demo_rsa_enc_dec_life se051 tt

demo_ec_sign_verify_life_example :
    Closed (run se051 demo_ec_sign_verify tt).value (seen se051 demo_ec_sign_verify tt)
demo_ec_sign_verify_life_example = demo_ec_sign_verify_life se051 tt

demo_rsa_sign_verify_life_example :
    Closed (run se051 demo_rsa_sign_verify tt).value (seen se051 demo_rsa_sign_verify tt)
demo_rsa_sign_verify_life_example = demo_rsa_sign_verify_life se051 tt

demo_ec_keygen_life_example :
    Closed (run se051 demo_ec_keygen tt).value (seen se051 demo_ec_keygen tt)
demo_ec_keygen_life_example = demo_ec_keygen_life se051 tt

demo_rsa_keygen_life_example :
    Closed (run se051 demo_rsa_keygen tt).value (seen se051 demo_rsa_keygen tt)
demo_rsa_keygen_life_example = demo_rsa_keygen_life se051 tt

demo_rng_life_example : Closed (run se051 demo_rng tt).value (seen se051 demo_rng tt)
demo_rng_life_example = demo_rng_life se051 tt
