-- ===== src/App/Keys.antt =====
-- The key generation of app/demo_ec.c and app/demo_rsa.c.
use se05x.Base.{ℕ}
use se05x.Prog.{ret, call, ◌>>◌}
use se05x.App.Sss.{
  Sss, success, key_pair, obj, key_ec_alice, key_rsa, part_pair, ec_nist_p, rsa_crt, persistent,
  ec_key_bits, rsa_key_bits, ec_keypair_max_bytes, rsa_keypair_max_bytes, ec_pub_buf_len, object,
  init, free, get_handle, allocate_handle, generate_key, get_key, erase_key, ensure, on_success,
}

unfoldable pub erase_key_if_exists : (key_id : ℕ) → Sss (Unit {0})
erase_key_if_exists key_id =
    on_success (init obj object)
      (λ _.
        on_success (get_handle obj key_id)
          (λ _. call (erase_key obj) >> (call (free obj) >> ret tt))
          (λ _. call (free obj) >> ret tt))
      (λ _. ret tt)

-- The label `cleanup` of either function.
unfoldable pub keygen_cleanup : (status : ℕ) → Sss ℕ
keygen_cleanup status = call (free key_pair) >> ret status

unfoldable pub ec_keygen_body : Sss ℕ
unfolding keygen_cleanup
ec_keygen_body = ensure (init key_pair object) keygen_cleanup λ _.
    ensure
      (allocate_handle key_pair key_ec_alice part_pair ec_nist_p ec_keypair_max_bytes persistent)
      keygen_cleanup
      λ _.
        ensure (generate_key key_pair ec_key_bits) keygen_cleanup
          λ _. ensure (get_key key_pair ec_pub_buf_len) keygen_cleanup λ _. keygen_cleanup success

unfoldable pub demo_ec_keygen : Sss ℕ
unfolding erase_key_if_exists ec_keygen_body
demo_ec_keygen = erase_key_if_exists key_ec_alice >> ec_keygen_body

unfoldable pub rsa_keygen_body : Sss ℕ
unfolding keygen_cleanup
rsa_keygen_body = ensure (init key_pair object) keygen_cleanup λ _.
    ensure (allocate_handle key_pair key_rsa part_pair rsa_crt rsa_keypair_max_bytes persistent)
      keygen_cleanup
      λ _. ensure (generate_key key_pair rsa_key_bits) keygen_cleanup λ _. keygen_cleanup success

unfoldable pub demo_rsa_keygen : Sss ℕ
unfolding erase_key_if_exists rsa_keygen_body
demo_rsa_keygen = erase_key_if_exists key_rsa >> rsa_keygen_body
