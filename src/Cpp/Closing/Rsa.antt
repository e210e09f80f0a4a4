-- ===== src/Cpp/Closing/Rsa.antt =====
-- What the functions of RsaKey leave set up.
use se05x.Base.{ℕ, ◌≡◌, refl, Bool, true, false, List, [], ◌∷◌, ◌+◌, ◌/◌}
use se05x.App.Sss.{
  mode_sign, mode_verify, mode_encrypt, mode_decrypt, rsassa_pkcs1_v1_5_sha256,
  rsaes_pkcs1_oaep_sha256, part_pair, rsa, persistent, object, asymmetric_context, init,
  allocate_handle, generate_key, get_key, sign_digest, verify_digest, encrypt, decrypt, key_pair,
  asym, free,
}
use se05x.Cpp.Calls.{sss}
use se05x.Cpp.RsaKey.{RsaKey, generate, sign, verify, encrypt_bytes, decrypt_bytes, public_key_der}
use se05x.Cpp.Watching.{inside, Does, Runs}
use se05x.Cpp.Watching.Rules.{Runs-then, Does-pure, Does-call, check-Runs, check_after-Runs}
use se05x.Cpp.Closing.{with_key, used, judged}

pub generate-Runs : (b : Bool) (id bits : ℕ) → Runs (generate id bits) (used b) (with_key (used b))
unfolding generate
generate-Runs true id bits =
    let l = with_key (used true) in
    Runs-then (check-Runs (init key_pair object) _ (used true) l refl refl) λ _.
      Runs-then
        (check-Runs (allocate_handle key_pair id part_pair rsa (bits / 8) persistent) _ l l refl
          refl)
        λ _. Runs-then (check-Runs (generate_key key_pair bits) _ l l refl refl) λ _. Does-pure refl
generate-Runs false id bits =
    let l = with_key (used false) in
    Runs-then (check-Runs (init key_pair object) _ (used false) l refl refl) λ _.
      Runs-then
        (check-Runs (allocate_handle key_pair id part_pair rsa (bits / 8) persistent) _ l l refl
          refl)
        λ _. Runs-then (check-Runs (generate_key key_pair bits) _ l l refl refl) λ _. Does-pure refl

module _ (k : RsaKey) where
  pub public_key_der-Runs :
      (b : Bool) → Runs (public_key_der k) (with_key (used b)) (with_key (used b))
  unfolding public_key_der
  public_key_der-Runs true =
      let l = with_key (used true) in
      Runs-then (check-Runs (get_key key_pair (k.bits / 8 + 64)) _ l l refl refl)
        λ r. Does-pure refl
  public_key_der-Runs false =
      let l = with_key (used false) in
      Runs-then (check-Runs (get_key key_pair (k.bits / 8 + 64)) _ l l refl refl)
        λ r. Does-pure refl

  pub sign-Runs : (digest : List ℕ) → Runs (sign k digest) (with_key []) (with_key [])
  unfolding sign
  sign-Runs digest =
      let ctx = asymmetric_context key_pair rsassa_pkcs1_v1_5_sha256 mode_sign in
      let l = (asym, ctx) ∷ with_key [] in
      Runs-then (check-Runs (init asym ctx) _ (with_key []) l refl refl) λ _.
        Runs-then
          (check_after-Runs (sign_digest digest (k.bits / 8)) asym _ l (with_key []) (λ b. refl)
            (λ b. refl))
          λ r. Does-pure refl

  pub encrypt_bytes-Runs :
      (input : List ℕ) → Runs (encrypt_bytes k input) (with_key []) (with_key [])
  unfolding encrypt_bytes
  encrypt_bytes-Runs input =
      let ctx = asymmetric_context key_pair rsaes_pkcs1_oaep_sha256 mode_encrypt in
      let l = (asym, ctx) ∷ with_key [] in
      Runs-then (check-Runs (init asym ctx) _ (with_key []) l refl refl) λ _.
        Runs-then
          (check_after-Runs (encrypt input (k.bits / 8)) asym _ l (with_key []) (λ b. refl)
            (λ b. refl))
          λ r. Does-pure refl

  pub decrypt_bytes-Runs :
      (input : List ℕ) → Runs (decrypt_bytes k input) (with_key []) (with_key [])
  unfolding decrypt_bytes
  decrypt_bytes-Runs input =
      let ctx = asymmetric_context key_pair rsaes_pkcs1_oaep_sha256 mode_decrypt in
      let l = (asym, ctx) ∷ with_key [] in
      Runs-then (check-Runs (init asym ctx) _ (with_key []) l refl refl) λ _.
        Runs-then
          (check_after-Runs (decrypt input (k.bits / 8)) asym _ l (with_key []) (λ b. refl)
            (λ b. refl))
          λ r. Does-pure refl

  pub verify-Does :
      (digest signature : List ℕ)
      → Does (verify k digest signature) (λ b m. m ≡ judged b) (inside (with_key []))
  unfolding verify
  verify-Does digest signature =
      let ctx = asymmetric_context key_pair rsassa_pkcs1_v1_5_sha256 mode_verify in
      Runs-then (check-Runs (init asym ctx) _ (with_key []) ((asym, ctx) ∷ with_key []) refl refl)
        λ _.
          Does-call (sss (verify_digest digest signature)) _
            λ r. Does-call (sss (free asym)) _ λ _. Does-pure refl
