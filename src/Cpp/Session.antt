-- ===== src/Cpp/Session.antt =====
-- The free functions of cpp_app/se05x_crypto.cpp, and its curves. The local variables are those of
-- App/Sss: `rng`, `obj` of eraseKey, and `key_pair` for the member obj_ of a key. A Session is the
-- context that main has opened.
use se05x.Base.{ℕ, List, if◌then◌else◌}
use se05x.App.Sss.{
  Algorithm, sha256, sha384, sha512, object, rng_context, init, get_handle, erase_key, get_random,
  obj, rng, key_pair, is_success,
}
use se05x.Cpp.Calls.{
  Cpp, ◌>>=◌, ◌>>◌, pure, raise, call, allocate, allocation_error, check, check_after, vector,
}
use se05x.Cpp.Args.{EcCurve, nist_p256, nist_p384, nist_p521}

unfoldable pub erase_key_by_id : (key_id : ℕ) → Cpp (Unit {0})
unfolding check
erase_key_by_id key_id = do
  check (init obj object) "key_object_init(erase)"
  check (get_handle obj key_id) "key_object_get_handle(erase)"
  check (erase_key obj) "key_store_erase_key"
  pure tt

unfoldable pub curve_bits : EcCurve → ℕ
curve_bits nist_p256 = 256
curve_bits nist_p384 = 384
curve_bits nist_p521 = 521

unfoldable pub curve_sig_algo : EcCurve → Algorithm
curve_sig_algo nist_p256 = sha256
curve_sig_algo nist_p384 = sha384
curve_sig_algo nist_p521 = sha512

unfoldable pub open_handle : (key_id : ℕ) → Cpp (Unit {0})
unfolding check
open_handle key_id = do
  check (init key_pair object) "key_object_init"
  check (get_handle key_pair key_id) "key_object_get_handle"
  pure tt

-- The vector is allocated before the context can be released: its allocation may throw.
unfoldable pub get_random_bytes : (num_bytes : ℕ) → Cpp (List ℕ)
unfolding check check_after
get_random_bytes num_bytes = do
  check (init rng rng_context) "rng_context_init"
  v ← call (allocate num_bytes)
  if is_success v then pure tt else raise allocation_error
  r ← check_after (get_random num_bytes) rng "rng_get_random"
  pure (vector num_bytes (record r { len = num_bytes }))
