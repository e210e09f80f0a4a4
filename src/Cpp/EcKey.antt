-- ===== src/Cpp/EcKey.antt =====
-- EcKey of cpp_app/se05x_crypto.cpp. Its member obj_ is the variable `key_pair`; `peer` of ecdh is
-- the variable `bob`.
use se05x.Base.{ℕ, ◌+◌, ◌*◌, ◌/◌, Bool, List, length}
use se05x.App.Sss.{
  Algorithm, sha256, ecdh, mode_sign, mode_verify, compute_shared_secret, part_pair, part_public,
  part_default, ec_nist_p, aes, persistent, transient, object, asymmetric_context,
  derive_key_context, init, free, allocate_handle, generate_key, set_key, get_key, sign_digest,
  verify_digest, derive_dh, asym, dctx, bob, shared, key_pair, is_success,
}
use se05x.Cpp.Calls.{Cpp, ◌>>=◌, ◌>>◌, pure, call, sss, check, check_after, vector}
use se05x.Cpp.Args.{EcCurve, nist_p256}
use se05x.Cpp.Session.{curve_bits, curve_sig_algo, open_handle}

pub record EcKey : Type 0 where
  pub sig_algo : Algorithm
  pub curve : EcCurve
  pub owns : Bool

unfoldable pub generate : (key_id : ℕ) → EcCurve → Cpp EcKey
unfolding check curve_bits curve_sig_algo
generate key_id curve = do
  let bits = curve_bits curve
  let bytes = (bits + 7) / 8
  check (init key_pair object) "key_object_init"
  check (allocate_handle key_pair key_id part_pair ec_nist_p (3 * bytes + 8) persistent)
      "key_object_allocate_handle(EC)"
  check (generate_key key_pair bits) "key_store_generate_key(EC)"
  pure (record { sig_algo = curve_sig_algo curve; curve = curve; owns = Bool.true })

-- The curve of the key is not asked for: `curve` keeps its initial value.
unfoldable pub open_key : (key_id : ℕ) → Cpp EcKey
unfolding open_handle
open_key key_id = do
  open_handle key_id
  pure (record { sig_algo = sha256; curve = nist_p256; owns = Bool.false })

unfoldable pub sign : EcKey → (digest : List ℕ) → Cpp (List ℕ)
unfolding check check_after
sign k digest = do
  check (init asym (asymmetric_context key_pair k.sig_algo mode_sign))
      "asymmetric_context_init(EC sign)"
  r ← check_after (sign_digest digest 256) asym "asymmetric_sign_digest(EC)"
  pure (vector 256 r)

unfoldable pub verify : EcKey → (digest signature : List ℕ) → Cpp Bool
unfolding check
verify k digest signature = do
  check (init asym (asymmetric_context key_pair k.sig_algo mode_verify))
      "asymmetric_context_init(EC verify)"
  r ← call (sss (verify_digest digest signature))
  call (sss (free asym))
  pure (is_success r)

-- The derivation, with both objects set up.
unfoldable pub ecdh_derive : Cpp (List ℕ)
unfolding check check_after
ecdh_derive = do
  check (init dctx (derive_key_context key_pair ecdh compute_shared_secret))
      "derive_key_context_init"
  check_after (derive_dh bob shared) dctx "derive_key_dh"
  r ← check (get_key shared 64) "key_store_get_key(shared)"
  pure (vector 64 r)

unfoldable pub ecdh_secret : EcKey → (peer_pub_key_der : List ℕ) → Cpp (List ℕ)
unfolding check curve_bits ecdh_derive
ecdh_secret k peer_pub_key_der = do
  check (init bob object) "key_object_init(peer)"
  check (allocate_handle bob 0xEF009E01 part_public ec_nist_p (length peer_pub_key_der) transient)
      "key_object_allocate_handle(peer)"
  check (set_key bob peer_pub_key_der (curve_bits k.curve)) "key_store_set_key(peer)"
  check (init shared object) "key_object_init(shared)"
  check (allocate_handle shared 0xEF009E02 part_default aes 64 transient)
      "key_object_allocate_handle(shared)"
  ecdh_derive

unfoldable pub public_key_der : Cpp (List ℕ)
unfolding check
public_key_der = do
  r ← check (get_key key_pair 256) "key_store_get_key(EC pub)"
  pure (vector 256 r)
