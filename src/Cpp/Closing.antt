-- ===== src/Cpp/Closing.antt =====
-- What the functions of cpp_app/se05x_crypto.cpp leave set up.
pub mod Rsa
pub mod Requests
pub mod Commands
pub mod Every
use se05x.Base.{
  ℕ, ◌≡◌, refl, Bool, true, false, ◌||◌, not, ◌⊎◌, inl, inr, List, [], ◌∷◌, ◌+◌, ◌*◌, ◌/◌, length,
}
use se05x.Prog.Hoare.{Wp}
use se05x.App.Sss.{
  Algorithm, mode_sign, mode_verify, free, mode_encrypt, mode_decrypt, ecdh, compute_shared_secret,
  rsassa_pkcs1_v1_5_sha256, rsaes_pkcs1_oaep_sha256, part_pair, part_public, part_default,
  ec_nist_p, aes, rsa, persistent, transient, object, rng_context, asymmetric_context,
  derive_key_context, Init, init, get_handle, erase_key, allocate_handle, generate_key, set_key,
  get_key, get_random, sign_digest, verify_digest, encrypt, decrypt, derive_dh, obj, rng, key_pair,
  asym, dctx, bob, shared, is_success,
}
use se05x.App.Watching.{Open}
use se05x.Cpp.Calls.{allocate, Cpp, swallow, sss}
use se05x.Cpp.Args.{EcCurve}
use se05x.Cpp.Session.{erase_key_by_id, curve_bits, open_handle, get_random_bytes}
use se05x.Cpp.EcKey
use se05x.Cpp.EcKey.{EcKey}
use se05x.Cpp.RsaKey
use se05x.Cpp.RsaKey.{RsaKey}
use se05x.Cpp.Watching.{World, world, inside, effect, Ends, Does, Runs, Stopped}
use se05x.Cpp.Watching.Rules.{
  Does-then, Runs-then, Does-pure, Does-call, Does-if, Does-branch, Does-raise, check-Runs,
  check_after-Runs, swallow-Does, Does-test, Wp-check,
}

-- The object of a key, on top of what is set up.
abbrev pub with_key : Open → Open
with_key l = (key_pair, object) ∷ l

-- Nothing, or the object of eraseKey.
abbrev pub Erased : World → Type 0
Erased m = (m ≡ inside []) ⊎ (m ≡ inside ((obj, object) ∷ []))

pub get_random_bytes-Runs : (n : ℕ) → Runs (get_random_bytes n) [] []
unfolding get_random_bytes
get_random_bytes-Runs n =
    let l = (rng, rng_context) ∷ [] in
    Runs-then (check-Runs (init rng rng_context) _ [] l refl refl) λ _.
      Does-call (allocate n) _ λ v.
        Runs-then
          (Does-test (is_success v) (λ b. effect (inside l) (allocate n) b) (Does-pure refl)
            (Does-raise (refl, refl, refl, refl, refl, refl)))
          λ _.
            Runs-then (check_after-Runs (get_random n) rng _ l [] (λ b. refl) (λ b. refl))
              λ r. Does-pure refl

-- Behind a key there is nothing, or the object of an erasure.
abbrev pub used : Bool → Open
used false = []
used true = (obj, object) ∷ []

module _ (k : EcKey) where
  pub ec_sign-Runs : (digest : List ℕ) → Runs (EcKey.sign k digest) (with_key []) (with_key [])
  unfolding EcKey.sign
  ec_sign-Runs digest =
      let ctx = asymmetric_context key_pair k.sig_algo mode_sign in
      Runs-then (check-Runs (init asym ctx) _ (with_key []) ((asym, ctx) ∷ with_key []) refl refl)
        λ _.
          Runs-then
            (check_after-Runs (sign_digest digest 256) asym _ ((asym, ctx) ∷ with_key [])
              (with_key []) (λ b. refl) (λ b. refl))
            λ r. Does-pure refl

  pub ecdh_secret-Runs :
      (peer : List ℕ)
      → Runs
          (EcKey.ecdh_secret k peer)
          (with_key [])
          ((shared, object) ∷ (bob, object) ∷ with_key [])
  unfolding EcKey.ecdh_secret EcKey.ecdh_derive
  ecdh_secret-Runs peer =
      let one_open = (bob, object) ∷ with_key [] in
      let both = (shared, object) ∷ one_open in
      let ctx = derive_key_context key_pair ecdh compute_shared_secret in
      Runs-then (check-Runs (init bob object) _ (with_key []) one_open refl refl) λ _.
        Runs-then
          (check-Runs (allocate_handle bob 0xEF009E01 part_public ec_nist_p (length peer) transient)
            _ one_open one_open refl refl)
          λ _.
            Runs-then
              (check-Runs (set_key bob peer (curve_bits k.curve)) _ one_open one_open refl refl)
              λ _. Runs-then (check-Runs (init shared object) _ one_open both refl refl) λ _.
                Runs-then
                  (check-Runs (allocate_handle shared 0xEF009E02 part_default aes 64 transient) _
                    both both refl refl)
                  λ _.
                    Runs-then (check-Runs (init dctx ctx) _ both ((dctx, ctx) ∷ both) refl refl)
                      λ _.
                        Runs-then
                          (check_after-Runs (derive_dh bob shared) dctx _ ((dctx, ctx) ∷ both) both
                            (λ b. refl) (λ b. refl))
                          λ _.
                            Runs-then (check-Runs (get_key shared 64) _ both both refl refl)
                              λ r. Does-pure refl

pub open_handle-Runs : (id : ℕ) → Runs (open_handle id) [] (with_key [])
unfolding open_handle
open_handle-Runs id =
    Runs-then (check-Runs (init key_pair object) _ [] (with_key []) refl refl) λ _.
      Runs-then (check-Runs (get_handle key_pair id) _ (with_key []) (with_key []) refl refl)
        λ _. Does-pure refl

pub ec_open-Runs : (id : ℕ) → Runs (EcKey.open_key id) [] (with_key [])
unfolding EcKey.open_key
ec_open-Runs id = Runs-then (open_handle-Runs id) λ _. Does-pure refl

pub rsa_open-Runs : (id : ℕ) → Runs (RsaKey.open_key id) [] (with_key [])
unfolding RsaKey.open_key
rsa_open-Runs id = Runs-then (open_handle-Runs id) λ _. Does-pure refl

-- With or without the object of an erasure.
pub ec_generate-Runs :
    (b : Bool) (id : ℕ) (c : EcCurve) → Runs (EcKey.generate id c) (used b) (with_key (used b))
unfolding EcKey.generate
ec_generate-Runs true id c =
    let l = with_key (used true) in
    Runs-then (check-Runs (init key_pair object) _ (used true) l refl refl) λ _.
      Runs-then
        (check-Runs (allocate_handle key_pair id part_pair ec_nist_p _ persistent) _ l l refl refl)
        λ _. Runs-then (check-Runs (generate_key key_pair _) _ l l refl refl) λ _. Does-pure refl
ec_generate-Runs false id c =
    let l = with_key (used false) in
    Runs-then (check-Runs (init key_pair object) _ (used false) l refl refl) λ _.
      Runs-then
        (check-Runs (allocate_handle key_pair id part_pair ec_nist_p _ persistent) _ l l refl refl)
        λ _. Runs-then (check-Runs (generate_key key_pair _) _ l l refl refl) λ _. Does-pure refl

pub ec_public_key_der-Runs :
    (b : Bool) → Runs EcKey.public_key_der (with_key (used b)) (with_key (used b))
unfolding EcKey.public_key_der
ec_public_key_der-Runs true =
    let l = with_key (used true) in
    Runs-then (check-Runs (get_key key_pair 256) _ l l refl refl) λ r. Does-pure refl
ec_public_key_der-Runs false =
    let l = with_key (used false) in
    Runs-then (check-Runs (get_key key_pair 256) _ l l refl refl) λ r. Does-pure refl

-- With the key alone; `judged` is that state after a verification.
abbrev pub judged : (accepted : Bool) → World
judged accepted = record (inside (with_key [])) { rejected = not accepted || false }

pub ec_verify-Does :
    (k : EcKey) (digest signature : List ℕ)
    → Does (EcKey.verify k digest signature) (λ b m. m ≡ judged b) (inside (with_key []))
unfolding EcKey.verify
ec_verify-Does k digest signature =
    let ctx = asymmetric_context key_pair k.sig_algo mode_verify in
    Runs-then (check-Runs (init asym ctx) _ (with_key []) ((asym, ctx) ∷ with_key []) refl refl)
      λ _.
        Does-call (sss (verify_digest digest signature)) _
          λ r. Does-call (sss (free asym)) _ λ _. Does-pure refl

-- With or without the object that `force` leaves.
erase_key_by_id-Erased : (id : ℕ) → Wp world (erase_key_by_id id) (λ _. Erased) (inside [])
unfolding erase_key_by_id
erase_key_by_id-Erased id =
    let l = (obj, object) ∷ [] in
    Wp-check (init obj object) _ _ _ (inside [])
      (λ _.
        Wp-check (get_handle obj id) _ _ _ (inside l)
          (λ _. Wp-check (erase_key obj) _ _ _ (inside l) (λ _. inr refl) (λ _. inr refl))
          (λ _. inr refl))
      (λ _. inl refl)

pub erase_key_by_id-Does : (id : ℕ) → Does (swallow (erase_key_by_id id)) (λ _. Erased) (inside [])
erase_key_by_id-Does id = swallow-Does (erase_key_by_id id) (erase_key_by_id-Erased id)
