-- ===== src/App/Closing.antt =====
-- The functions of app/ that do not build a request close what they open.
pub mod Decryption
pub mod Requests
pub mod Every
use se05x.Base.{ℕ, refl, List, [], ◌∷◌}
use se05x.Prog.Hoare.{Wp}
use se05x.App.Sss.{
  Algorithm, sha256, mode_digest, digest_context, key_pair, key_ec_alice, key_rsa, bob, shared,
  dig_ctx, init, rng, rng_context, get_random, get_handle, get_key, allocate_handle, generate_key,
  digest_one_go, sign_digest, verify_digest, derive_dh, part_pair, part_default, ec_nist_p, aes,
  rsa_crt, persistent, transient, ec_key_bits, rsa_key_bits, ec_keypair_max_bytes,
  rsa_keypair_max_bytes, ec_pub_buf_len, asym, dctx, key_ec_bob, key_ec_shared, ecdh,
  compute_shared_secret, derive_key_context, object, mode_sign, mode_verify, asymmetric_context,
}
use se05x.App.Rng.{rng_cleanup, demo_rng}
use se05x.App.Keys.{
  keygen_cleanup, ec_keygen_body, rsa_keygen_body, demo_ec_keygen, demo_rsa_keygen,
}
use se05x.App.SignVerify.{
  output, sign_verify_cleanup, sign_then_verify, sign_verify, demo_ec_sign_verify,
  demo_rsa_sign_verify,
}
use se05x.App.Ecdh.{ecdh_cleanup, ecdh_derive, ecdh_shared_slot, ecdh_bob, demo_ec_ecdh}
use se05x.App.Watching.{contexts, amid, Closed, Closes, fresh}
use se05x.App.Watching.Rules.{Wp-on_success, Wp-erase_key_if_exists}

pub demo_rng-Closes : (p : List ℕ) → Closes demo_rng p
unfolding demo_rng rng_cleanup
demo_rng-Closes p =
    Wp-on_success (init rng rng_context) _ _ _ (fresh p)
      (λ _.
        Wp-on_success (get_random 32) _ _ _ _ (λ _ _ _. (refl, refl, refl, refl))
          (λ _ bad _ _. (refl, refl, refl, bad)))
      (λ _ bad _ _. (refl, refl, refl, bad))

module _ (p : List ℕ) where
  ec_keygen_body-Closes : Closes ec_keygen_body p
  unfolding ec_keygen_body keygen_cleanup
  ec_keygen_body-Closes =
      Wp-on_success (init key_pair object) _ _ _ (fresh p)
        (λ _.
          Wp-on_success
            (allocate_handle key_pair key_ec_alice part_pair ec_nist_p ec_keypair_max_bytes
              persistent)
            _ _ _ _
            (λ _.
              Wp-on_success (generate_key key_pair ec_key_bits) _ _ _ _
                (λ _.
                  Wp-on_success (get_key key_pair ec_pub_buf_len) _ _ _ _
                    (λ _ _ _. (refl, refl, refl, refl)) (λ _ bad _ _. (refl, refl, refl, bad)))
                (λ _ bad _ _. (refl, refl, refl, bad)))
            (λ _ bad _ _. (refl, refl, refl, bad)))
        (λ _ bad _ _. (refl, refl, refl, bad))

  rsa_keygen_body-Closes : Closes rsa_keygen_body p
  unfolding rsa_keygen_body keygen_cleanup
  rsa_keygen_body-Closes =
      Wp-on_success (init key_pair object) _ _ _ (fresh p)
        (λ _.
          Wp-on_success
            (allocate_handle key_pair key_rsa part_pair rsa_crt rsa_keypair_max_bytes persistent) _
            _ _ _
            (λ _.
              Wp-on_success (generate_key key_pair rsa_key_bits) _ _ _ _
                (λ _ _ _. (refl, refl, refl, refl)) (λ _ bad _ _. (refl, refl, refl, bad)))
            (λ _ bad _ _. (refl, refl, refl, bad)))
        (λ _ bad _ _. (refl, refl, refl, bad))

  pub demo_ec_keygen-Closes : Closes demo_ec_keygen p
  unfolding demo_ec_keygen
  demo_ec_keygen-Closes =
      Wp-erase_key_if_exists key_ec_alice ec_keygen_body Closed [] p refl ec_keygen_body-Closes
        ec_keygen_body-Closes

  pub demo_rsa_keygen-Closes : Closes demo_rsa_keygen p
  unfolding demo_rsa_keygen
  demo_rsa_keygen-Closes =
      Wp-erase_key_if_exists key_rsa rsa_keygen_body Closed [] p refl rsa_keygen_body-Closes
        rsa_keygen_body-Closes

  sign_then_verify-Closed :
      (alg : Algorithm) (room : ℕ) (digest : List ℕ)
      → Wp contexts
          (sign_then_verify alg room digest)
          Closed
          (amid ((dig_ctx, digest_context sha256 mode_digest) ∷ (key_pair, object) ∷ []) p)
  unfolding sign_then_verify sign_verify_cleanup
  sign_then_verify-Closed alg room digest =
      Wp-on_success (init asym (asymmetric_context key_pair alg mode_sign)) _ _ _ _
        (λ _.
          Wp-on_success (sign_digest digest room) _ _ _ _
            (λ sig _ _.
              Wp-on_success (init asym (asymmetric_context key_pair alg mode_verify)) _ _ _ _
                (λ _.
                  Wp-on_success (verify_digest digest (output room sig)) _ _ _ _
                    (λ _ _ _ _ _ _ _. (refl, refl, refl, refl))
                    (λ _ bad _ _ _ _ _ _. (refl, refl, refl, bad)))
                (λ _ bad _ _ _ _ _ _. (refl, refl, refl, bad)))
            (λ _ bad _ _ _ _ _ _. (refl, refl, refl, bad)))
        (λ _ bad _ _ _ _ _ _. (refl, refl, refl, bad))

  sign_verify-Closes :
      (key_id : ℕ) (message : List ℕ) (alg : Algorithm) (room : ℕ)
      → Closes (sign_verify key_id message alg room) p
  unfolding sign_verify sign_verify_cleanup
  sign_verify-Closes key_id message alg room =
      Wp-on_success (init key_pair object) _ _ _ (fresh p)
        (λ _.
          Wp-on_success (get_handle key_pair key_id) _ _ _ _
            (λ _.
              Wp-on_success (init dig_ctx (digest_context sha256 mode_digest)) _ _ _ _
                (λ _.
                  Wp-on_success (digest_one_go message 32) _ _ _ _
                    (λ _. sign_then_verify-Closed alg room _)
                    (λ _ bad _ _ _ _ _ _. (refl, refl, refl, bad)))
                (λ _ bad _ _ _ _ _ _. (refl, refl, refl, bad)))
            (λ _ bad _ _ _ _ _ _. (refl, refl, refl, bad)))
        (λ _ bad _ _ _ _ _ _. (refl, refl, refl, bad))

  pub demo_ec_sign_verify-Closes : Closes demo_ec_sign_verify p
  unfolding demo_ec_sign_verify
  demo_ec_sign_verify-Closes = sign_verify-Closes _ _ _ _

  pub demo_rsa_sign_verify-Closes : Closes demo_rsa_sign_verify p
  unfolding demo_rsa_sign_verify
  demo_rsa_sign_verify-Closes = sign_verify-Closes _ _ _ _

  -- The last part of `demo_ec_ecdh`, with the three objects open.
  ecdh_derive-Closed :
      Wp contexts ecdh_derive Closed
        (amid ((shared, object) ∷ (bob, object) ∷ (key_pair, object) ∷ []) p)
  unfolding ecdh_derive ecdh_cleanup
  ecdh_derive-Closed =
      Wp-on_success (init dctx (derive_key_context key_pair ecdh compute_shared_secret)) _ _ _ _
        (λ _.
          Wp-on_success (derive_dh bob shared) _ _ _ _
            (λ _ _ _ _ _ _ _ _ _ _ _. (refl, refl, refl, refl))
            (λ _ bad _ _ _ _ _ _ _ _. (refl, refl, refl, bad)))
        (λ _ bad _ _ _ _ _ _ _ _. (refl, refl, refl, bad))

  ecdh_shared_slot-Closed :
      Wp contexts ecdh_shared_slot Closed (amid ((bob, object) ∷ (key_pair, object) ∷ []) p)
  unfolding ecdh_shared_slot ecdh_cleanup
  ecdh_shared_slot-Closed =
      Wp-on_success (init shared object) _ _ _ _
        (λ _.
          Wp-on_success (allocate_handle shared key_ec_shared part_default aes 32 transient) _ _ _ _
            (λ _. ecdh_derive-Closed) (λ _ bad _ _ _ _ _ _ _ _. (refl, refl, refl, bad)))
        (λ _ bad _ _ _ _ _ _ _ _. (refl, refl, refl, bad))

  ecdh_bob-Closed : Wp contexts ecdh_bob Closed (amid ((key_pair, object) ∷ []) p)
  unfolding ecdh_bob ecdh_cleanup
  ecdh_bob-Closed =
      Wp-on_success (init bob object) _ _ _ _
        (λ _.
          Wp-on_success
            (allocate_handle bob key_ec_bob part_pair ec_nist_p ec_keypair_max_bytes persistent) _ _
            _ _
            (λ _.
              Wp-on_success (generate_key bob ec_key_bits) _ _ _ _
                (λ _.
                  Wp-erase_key_if_exists key_ec_shared ecdh_shared_slot Closed
                    ((bob, object) ∷ (key_pair, object) ∷ []) p refl ecdh_shared_slot-Closed
                    ecdh_shared_slot-Closed)
                (λ _ bad _ _ _ _ _ _ _ _. (refl, refl, refl, bad)))
            (λ _ bad _ _ _ _ _ _ _ _. (refl, refl, refl, bad)))
        (λ _ bad _ _ _ _ _ _ _ _. (refl, refl, refl, bad))

  pub demo_ec_ecdh-Closes : Closes demo_ec_ecdh p
  unfolding demo_ec_ecdh ecdh_cleanup
  demo_ec_ecdh-Closes =
      Wp-on_success (init key_pair object) _ _ _ (fresh p)
        (λ _.
          Wp-on_success (get_handle key_pair key_ec_alice) _ _ _ _
            (λ _.
              Wp-erase_key_if_exists key_ec_bob ecdh_bob Closed ((key_pair, object) ∷ []) p refl
                ecdh_bob-Closed ecdh_bob-Closed)
            (λ _ bad _ _ _ _ _ _ _ _. (refl, refl, refl, bad)))
        (λ _ bad _ _ _ _ _ _ _ _. (refl, refl, refl, bad))
