-- ===== src/App/Closing/Decryption.antt =====
-- `demo_rsa_enc_dec` closes what it opens, and the comparison with the plaintext decides its status.
use se05x.Base.{
  ℕ, refl, sym, Bool, List, [], ◌∷◌, ◌++◌, ◌==◌, ◌&&◌, bytes_eq, take, drop, length, replicate,
}
use se05x.Prog.Hoare.{Wp, Wp-if}
use se05x.App.Sss.{
  Reply, success, fail, key_pair, key_rsa, Init, init, get_handle, encrypt, decrypt, asym,
  rsaes_pkcs1_oaep_sha256, mode_encrypt, mode_decrypt, rsa_sig_buf_len, object, asymmetric_context,
}
use se05x.App.EncDec.{plaintext, enc_dec_cleanup, decrypt_back, demo_rsa_enc_dec}
use se05x.App.Watching.{contexts, amid, Closed, Closes, fresh}
use se05x.App.Watching.Rules.{Wp-on_success}

abbrev to_decrypt : Init
to_decrypt = asymmetric_context key_pair rsaes_pkcs1_oaep_sha256 mode_decrypt

-- The test of `decrypt_back`.
abbrev is_same : Reply → Bool
is_same r =
    let recovered = r.bytes ++ drop (length r.bytes) (replicate rsa_sig_buf_len 0) in
    r.len == length plaintext && bytes_eq (take (length plaintext) recovered) plaintext

-- The comparison decides the status.
decrypt_back-Closed :
    (input : List ℕ)
    → Wp contexts (decrypt_back input) Closed (amid ((key_pair, object) ∷ []) plaintext)
unfolding decrypt_back enc_dec_cleanup
decrypt_back-Closed input =
    Wp-on_success (init asym to_decrypt) _ _ _ _
      (λ _.
        Wp-on_success (decrypt input rsa_sig_buf_len) _ _ _
          (amid ((asym, to_decrypt) ∷ (key_pair, object) ∷ []) plaintext)
          (λ r.
            Wp-if contexts (is_same r) (enc_dec_cleanup success) (enc_dec_cleanup fail) Closed _
              (λ same _ _ _ _. (refl, refl, refl, sym (rw same)))
              (λ differs _ _ _ _. (refl, refl, refl, sym (rw differs))))
          (λ _ bad _ _ _ _. (refl, refl, refl, bad)))
      (λ _ bad _ _ _ _. (refl, refl, refl, bad))

abbrev to_encrypt : Init
to_encrypt = asymmetric_context key_pair rsaes_pkcs1_oaep_sha256 mode_encrypt

pub demo_rsa_enc_dec-Closes : (p : List ℕ) → Closes demo_rsa_enc_dec p
unfolding demo_rsa_enc_dec enc_dec_cleanup
demo_rsa_enc_dec-Closes p =
    Wp-on_success (init key_pair object) _ _ _ (fresh p)
      (λ _.
        Wp-on_success (get_handle key_pair key_rsa) _ _ _ _
          (λ _.
            Wp-on_success (init asym to_encrypt) _ _ _ _
              (λ _.
                Wp-on_success (encrypt plaintext rsa_sig_buf_len) _ _ _
                  (amid ((asym, to_encrypt) ∷ (key_pair, object) ∷ []) p)
                  (λ _ _ _. decrypt_back-Closed _) (λ _ bad _ _ _ _. (refl, refl, refl, bad)))
              (λ _ bad _ _ _ _. (refl, refl, refl, bad)))
          (λ _ bad _ _ _ _. (refl, refl, refl, bad)))
      (λ _ bad _ _ _ _. (refl, refl, refl, bad))
