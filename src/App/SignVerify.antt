-- ===== src/App/SignVerify.antt =====
-- demo_ec_sign_verify of app/demo_ec.c and demo_rsa_sign_verify of app/demo_rsa.c, which differ in
-- the key, the message, the algorithm and the room for the signature.
use se05x.Base.{ℕ, List, ◌++◌, take, drop, length, replicate, codes}
use se05x.Prog.{ret, call, ◌>>◌}
use se05x.App.Sss.{
  Sss, success, key_pair, dig_ctx, asym, key_ec_alice, key_rsa, Algorithm, sha256, ecdsa_sha256,
  rsassa_pkcs1_v1_5_sha256, mode_digest, mode_sign, mode_verify, ec_sig_buf_len, rsa_sig_buf_len,
  object, digest_context, asymmetric_context, init, free, get_handle, digest_one_go, sign_digest,
  verify_digest, Reply, ensure,
}

-- kMessage of either function
abbrev pub ec_message : List ℕ
ec_message = codes "SE051 ECDSA test message"

abbrev pub rsa_message : List ℕ
rsa_message = codes "SE051 RSA PKCS1v15 test message"

-- A zeroed buffer of `n` bytes after a call wrote to it, up to the length that it reported.
abbrev pub output : ℕ → Reply → List ℕ
output n r = take r.len (r.bytes ++ drop (length r.bytes) (replicate n 0))

-- The label `cleanup`.
unfoldable pub sign_verify_cleanup : (status : ℕ) → Sss ℕ
sign_verify_cleanup status =
    call (free asym) >> (call (free dig_ctx) >> (call (free key_pair) >> ret status))

-- The signature is made and checked; the context is freed in between and used again.
unfoldable pub sign_then_verify : (alg : Algorithm) (room : ℕ) (digest : List ℕ) → Sss ℕ
unfolding sign_verify_cleanup
sign_then_verify alg room digest =
    ensure (init asym (asymmetric_context key_pair alg mode_sign)) sign_verify_cleanup λ _.
      ensure (sign_digest digest room) sign_verify_cleanup λ sig.
        call (free asym)
        >> ensure (init asym (asymmetric_context key_pair alg mode_verify)) sign_verify_cleanup λ _.
          ensure (verify_digest digest (output room sig)) sign_verify_cleanup
            λ _. sign_verify_cleanup success

unfoldable pub sign_verify : (key_id : ℕ) (message : List ℕ) (alg : Algorithm) (room : ℕ) → Sss ℕ
unfolding sign_then_verify
sign_verify key_id message alg room = ensure (init key_pair object) sign_verify_cleanup λ _.
    ensure (get_handle key_pair key_id) sign_verify_cleanup λ _.
      ensure (init dig_ctx (digest_context sha256 mode_digest)) sign_verify_cleanup λ _.
        ensure (digest_one_go message 32) sign_verify_cleanup
          λ d. sign_then_verify alg room (output 32 d)

unfoldable pub demo_ec_sign_verify : Sss ℕ
unfolding sign_verify
demo_ec_sign_verify = sign_verify key_ec_alice ec_message ecdsa_sha256 ec_sig_buf_len

unfoldable pub demo_rsa_sign_verify : Sss ℕ
unfolding sign_verify
demo_rsa_sign_verify = sign_verify key_rsa rsa_message rsassa_pkcs1_v1_5_sha256 rsa_sig_buf_len
