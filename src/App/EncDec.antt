-- ===== src/App/EncDec.antt =====
-- demo_rsa_enc_dec of app/demo_rsa.c.
use se05x.Base.{
  ℕ, List, ◌++◌, ◌==◌, ◌&&◌, bytes_eq, if◌then◌else◌, take, drop, length, replicate, codes,
}
use se05x.Prog.{ret, call, ◌>>◌}
use se05x.App.Sss.{
  Sss, success, fail, key_pair, asym, key_rsa, rsaes_pkcs1_oaep_sha256, mode_encrypt, mode_decrypt,
  rsa_sig_buf_len, object, asymmetric_context, init, free, get_handle, encrypt, decrypt, ensure,
}
use se05x.App.SignVerify.{output}

-- kPlaintext
abbrev pub plaintext : List ℕ
plaintext = codes "Hello from SE051!"

-- The label `cleanup`.
unfoldable pub enc_dec_cleanup : (status : ℕ) → Sss ℕ
enc_dec_cleanup status = call (free asym) >> (call (free key_pair) >> ret status)

-- The decryption, and the comparison with the plaintext.
unfoldable pub decrypt_back : (ciphertext : List ℕ) → Sss ℕ
unfolding enc_dec_cleanup
decrypt_back ciphertext =
    ensure (init asym (asymmetric_context key_pair rsaes_pkcs1_oaep_sha256 mode_decrypt))
      enc_dec_cleanup
      λ _. ensure (decrypt ciphertext rsa_sig_buf_len) enc_dec_cleanup λ r.
        let recovered = r.bytes ++ drop (length r.bytes) (replicate rsa_sig_buf_len 0) in
        if r.len == length plaintext && bytes_eq (take (length plaintext) recovered) plaintext
        then enc_dec_cleanup success
        else enc_dec_cleanup fail

unfoldable pub demo_rsa_enc_dec : Sss ℕ
unfolding decrypt_back
demo_rsa_enc_dec = ensure (init key_pair object) enc_dec_cleanup λ _.
    ensure (get_handle key_pair key_rsa) enc_dec_cleanup λ _.
      ensure (init asym (asymmetric_context key_pair rsaes_pkcs1_oaep_sha256 mode_encrypt))
        enc_dec_cleanup
        λ _.
          ensure (encrypt plaintext rsa_sig_buf_len) enc_dec_cleanup
            λ c. call (free asym) >> decrypt_back (output rsa_sig_buf_len c)
