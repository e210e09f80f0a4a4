-- ===== src/App/Ecdh.antt =====
-- demo_ec_ecdh of app/demo_ec.c. The variable `alice` is `key_pair` here.
use se05x.Base.{ℕ}
use se05x.Prog.{ret, call, ◌>>◌}
use se05x.App.Sss.{
  Sss, success, key_pair, bob, shared, dctx, key_ec_alice, key_ec_bob, key_ec_shared, ecdh,
  compute_shared_secret, part_pair, part_default, ec_nist_p, aes, persistent, transient,
  ec_key_bits, ec_keypair_max_bytes, ecdh_shared_buf_len, object, derive_key_context, init, free,
  get_handle, allocate_handle, generate_key, get_key, derive_dh, ensure,
}
use se05x.App.Keys.{erase_key_if_exists}

-- The label `cleanup`.
unfoldable pub ecdh_cleanup : (status : ℕ) → Sss ℕ
ecdh_cleanup status =
    call (free dctx)
    >> (call (free shared) >> (call (free bob) >> (call (free key_pair) >> ret status)))

-- The derivation. The export of the secret may fail.
unfoldable pub ecdh_derive : Sss ℕ
unfolding ecdh_cleanup
ecdh_derive =
    ensure (init dctx (derive_key_context key_pair ecdh compute_shared_secret)) ecdh_cleanup λ _.
      ensure (derive_dh bob shared) ecdh_cleanup
        λ _. call (get_key shared ecdh_shared_buf_len) >> ecdh_cleanup success

unfoldable pub ecdh_shared_slot : Sss ℕ
unfolding ecdh_derive
ecdh_shared_slot = ensure (init shared object) ecdh_cleanup λ _.
    ensure (allocate_handle shared key_ec_shared part_default aes 32 transient) ecdh_cleanup
      λ _. ecdh_derive

unfoldable pub ecdh_bob : Sss ℕ
unfolding ecdh_shared_slot
ecdh_bob = ensure (init bob object) ecdh_cleanup λ _.
    ensure (allocate_handle bob key_ec_bob part_pair ec_nist_p ec_keypair_max_bytes persistent)
      ecdh_cleanup
      λ _.
        ensure (generate_key bob ec_key_bits) ecdh_cleanup
          λ _. erase_key_if_exists key_ec_shared >> ecdh_shared_slot

unfoldable pub demo_ec_ecdh : Sss ℕ
unfolding ecdh_bob erase_key_if_exists
demo_ec_ecdh = ensure (init key_pair object) ecdh_cleanup λ _.
    ensure (get_handle key_pair key_ec_alice) ecdh_cleanup
      λ _. erase_key_if_exists key_ec_bob >> ecdh_bob
