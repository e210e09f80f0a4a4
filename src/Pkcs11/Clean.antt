-- ===== src/Pkcs11/Clean.antt =====
-- Every run of a demo, against any library that behaves as documented, keeps the rules of
-- PKCS#11 and leaves nothing behind but what the library refuses to release.
use se05x.Base.{ℕ, ◌≡◌, ap, ◌∙◌, true, false, Bool, List}
use se05x.Prog.{Device, run}
use se05x.Prog.Hoare.{after, all_honest, Wp-run}
use se05x.Pkcs11.Cryptoki.{Call, Reply, Demo}
use se05x.Pkcs11.Protocol.{Monitor, protocol, idle, unloaded}
use se05x.Pkcs11.Protocol.Rules.{within, Holds, Leaves}
use se05x.Pkcs11.Protocol.Resources.{counted, Releases, after-Releases, counted-failed}
use se05x.Pkcs11.ModuleInfo.{run_module_info}
use se05x.Pkcs11.ModuleInfo.Protocol.{run_module_info-Leaves}
use se05x.Pkcs11.RandomGen.{run_random_gen}
use se05x.Pkcs11.RandomGen.Protocol.{run_random_gen-Leaves, drawing, run_random_gen-draws}
use se05x.Pkcs11.Digest.{run_digest}
use se05x.Pkcs11.Digest.Protocol.{run_digest-Leaves}
use se05x.Pkcs11.SymKeyGen.{run_sym_key_gen}
use se05x.Pkcs11.SymKeyGen.Protocol.{run_sym_key_gen-Leaves}
use se05x.Pkcs11.ImportObject.{run_import_object}
use se05x.Pkcs11.ImportObject.Protocol.{run_import_object-Leaves}
use se05x.Pkcs11.Ecc.{run_ecc}
use se05x.Pkcs11.Ecc.Protocol.{run_ecc-Leaves}
use se05x.Pkcs11.Rsa.{run_rsa}
use se05x.Pkcs11.Rsa.Protocol.{run_rsa-Leaves}
use se05x.Pkcs11.EcdhDerive.{run_ecdh_derive}
use se05x.Pkcs11.EcdhDerive.Protocol.{run_ecdh_derive-Leaves}
use se05x.Pkcs11.Hmac.{run_hmac}
use se05x.Pkcs11.Hmac.Protocol.{run_hmac-Leaves}
use se05x.Pkcs11.EncryptDecrypt.{run_encrypt_decrypt}
use se05x.Pkcs11.EncryptDecrypt.Protocol.{run_encrypt_decrypt-Leaves}
use se05x.Pkcs11.Suite.{main}
use se05x.Pkcs11.Suite.Protocol.{outside, Ends, main-Ends}

-- The calls that a run makes, and the monitor after them, from a state of the monitor.
abbrev pub honest_run : (d : Device Call Reply) → Demo ℕ → d.State → Monitor → Bool
honest_run d p st m = all_honest protocol m (run d p st).log

abbrev pub monitor_after : (d : Device Call Reply) → Demo ℕ → d.State → Monitor → Monitor
monitor_after d p st m = after protocol m (run d p st).log

-- A demo in an open session `s`, where the caller counts on the objects `live`: it keeps the
-- rules, is left as it was found, and returns 1 exactly if it printed a [FAIL] line; and of
-- every object, session and search the library holds at the end what it did before and what it
-- refused to release.
abbrev pub Restores :
    (d : Device Call Reply) (st : d.State) (s : ℕ) (live : List ℕ) → Demo ℕ → Type 0
Restores d st s live p =
    Leaves s live (run d p st).value (monitor_after d p st (within s live idle false))
    × Releases (within s live idle false) (run d p st).log

Leaves-Restores :
    (d : Device Call Reply) (st : d.State) (s : ℕ) (live : List ℕ) (p : Demo ℕ)
    → Holds p (Leaves s live) (within s live idle false)
    → honest_run d p st (within s live idle false) ≡ true
    → Restores d st s live p
Leaves-Restores d st s live p h g =
    let start = within s live idle false in
    let (f, e, em) = Wp-run protocol d p (Leaves s live) start st h g in
    (
      (f, e, em),
      after-Releases start (run d p st).log (ap (λ m. m.broken) em)
          (λ x. ap (counted x) em ∙ counted-failed x start f),
    )

module _ (d : Device Call Reply) (st : d.State) (s : ℕ) (live : List ℕ) where
  -- In an open session, with a library whose replies are as documented, `run_module_info` makes
  -- no call that the rules of PKCS#11 forbid; the search for objects is begun before it runs,
  -- and it asks to end it. At its end the caller counts on the objects from before, it has begun
  -- no operation that is not ended, and the return code is 0, or 1 exactly if a [FAIL] line was
  -- printed. Of every object, session and search the library then holds, by its replies, exactly
  -- what it held before and what it refused to release.
  pub run_module_info_clean :
      honest_run d (run_module_info s) st (within s live idle false) ≡ true
      → Restores d st s live (run_module_info s)
  run_module_info_clean =
      Leaves-Restores d st s live (run_module_info s) (run_module_info-Leaves s live)

  -- In an open session, with a library whose replies are as documented, `run_random_gen` makes
  -- no call that the rules of PKCS#11 forbid; it makes no other calls than C_GenerateRandom and
  -- those that print. At its end the caller counts on the objects from before, it has begun no
  -- operation that is not ended, and the return code is 0, or 1 exactly if a [FAIL] line was
  -- printed. Of every object, session and search the library then holds, by its replies, exactly
  -- what it held before and what it refused to release.
  pub run_random_gen_clean :
      honest_run d (run_random_gen s) st (within s live idle false) ≡ true
      → Restores d st s live (run_random_gen s)
        × (after drawing true (run d (run_random_gen s) st).log ≡ true)
  run_random_gen_clean g = (
    Leaves-Restores d st s live (run_random_gen s) (run_random_gen-Leaves s live) g,
    run_random_gen-draws d st s,
  )

  -- In an open session, with a library whose replies are as documented, `run_digest` makes no
  -- call that the rules of PKCS#11 forbid; each digest is begun before it runs, and its buffer
  -- has room for every hash. At its end the caller counts on the objects from before, it has
  -- begun no operation that is not ended, and the return code is 0, or 1 exactly if a [FAIL]
  -- line was printed. Of every object, session and search the library then holds, by its
  -- replies, exactly what it held before and what it refused to release.
  pub run_digest_clean :
      honest_run d (run_digest s) st (within s live idle false) ≡ true
      → Restores d st s live (run_digest s)
  run_digest_clean = Leaves-Restores d st s live (run_digest s) (run_digest-Leaves s live)

  -- In an open session, with a library whose replies are as documented, `run_sym_key_gen` makes
  -- no call that the rules of PKCS#11 forbid; it asks to destroy each key that was generated. At
  -- its end the caller counts on the objects from before, it has begun no operation that is not
  -- ended, and the return code is 0, or 1 exactly if a [FAIL] line was printed. Of every object,
  -- session and search the library then holds, by its replies, exactly what it held before and
  -- what it refused to release.
  pub run_sym_key_gen_clean :
      honest_run d (run_sym_key_gen s) st (within s live idle false) ≡ true
      → Restores d st s live (run_sym_key_gen s)
  run_sym_key_gen_clean =
      Leaves-Restores d st s live (run_sym_key_gen s) (run_sym_key_gen-Leaves s live)

  -- In an open session, with a library whose replies are as documented, `run_import_object`
  -- makes no call that the rules of PKCS#11 forbid; it asks to destroy each imported object,
  -- also when its parameters cannot be read back. At its end the caller counts on the objects
  -- from before, it has begun no operation that is not ended, and the return code is 0, or 1
  -- exactly if a [FAIL] line was printed. Of every object, session and search the library then
  -- holds, by its replies, exactly what it held before and what it refused to release.
  pub run_import_object_clean :
      honest_run d (run_import_object s) st (within s live idle false) ≡ true
      → Restores d st s live (run_import_object s)
  run_import_object_clean =
      Leaves-Restores d st s live (run_import_object s) (run_import_object-Leaves s live)

  -- In an open session, with a library whose replies are as documented, `run_ecc` makes no call
  -- that the rules of PKCS#11 forbid; it asks to destroy both keys of each curve, whichever step
  -- of the round gave up. At its end the caller counts on the objects from before, it has begun
  -- no operation that is not ended, and the return code is 0, or 1 exactly if a [FAIL] line was
  -- printed. Of every object, session and search the library then holds, by its replies, exactly
  -- what it held before and what it refused to release.
  pub run_ecc_clean :
      honest_run d (run_ecc s) st (within s live idle false) ≡ true
      → Restores d st s live (run_ecc s)
  run_ecc_clean = Leaves-Restores d st s live (run_ecc s) (run_ecc-Leaves s live)

  -- In an open session, with a library whose replies are as documented, `run_rsa` makes no call
  -- that the rules of PKCS#11 forbid; it asks to destroy both keys from every exit, the
  -- unsupported PSS included. At its end the caller counts on the objects from before, it has
  -- begun no operation that is not ended, and the return code is 0, or 1 exactly if a [FAIL]
  -- line was printed. Of every object, session and search the library then holds, by its
  -- replies, exactly what it held before and what it refused to release.
  pub run_rsa_clean :
      honest_run d (run_rsa s) st (within s live idle false) ≡ true
      → Restores d st s live (run_rsa s)
  run_rsa_clean = Leaves-Restores d st s live (run_rsa s) (run_rsa-Leaves s live)

  -- In an open session, with a library whose replies are as documented, `run_ecdh_derive` makes
  -- no call that the rules of PKCS#11 forbid; of the six objects it asks to destroy those that
  -- exist, from every exit. At its end the caller counts on the objects from before, it has
  -- begun no operation that is not ended, and the return code is 0, or 1 exactly if a [FAIL]
  -- line was printed. Of every object, session and search the library then holds, by its
  -- replies, exactly what it held before and what it refused to release.
  pub run_ecdh_derive_clean :
      honest_run d (run_ecdh_derive s) st (within s live idle false) ≡ true
      → Restores d st s live (run_ecdh_derive s)
  run_ecdh_derive_clean =
      Leaves-Restores d st s live (run_ecdh_derive s) (run_ecdh_derive-Leaves s live)

  -- In an open session, with a library whose replies are as documented, `run_hmac` makes no call
  -- that the rules of PKCS#11 forbid; it asks to destroy the imported key from every exit. At
  -- its end the caller counts on the objects from before, it has begun no operation that is not
  -- ended, and the return code is 0, or 1 exactly if a [FAIL] line was printed. Of every object,
  -- session and search the library then holds, by its replies, exactly what it held before and
  -- what it refused to release.
  pub run_hmac_clean :
      honest_run d (run_hmac s) st (within s live idle false) ≡ true
      → Restores d st s live (run_hmac s)
  run_hmac_clean = Leaves-Restores d st s live (run_hmac s) (run_hmac-Leaves s live)

  -- In an open session, with a library whose replies are as documented, `run_encrypt_decrypt`
  -- makes no call that the rules of PKCS#11 forbid; it asks to destroy each key once. At its end
  -- the caller counts on the objects from before, it has begun no operation that is not ended,
  -- and the return code is 0, or 1 exactly if a [FAIL] line was printed. Of every object,
  -- session and search the library then holds, by its replies, exactly what it held before and
  -- what it refused to release.
  pub run_encrypt_decrypt_clean :
      honest_run d (run_encrypt_decrypt s) st (within s live idle false) ≡ true
      → Restores d st s live (run_encrypt_decrypt s)
  run_encrypt_decrypt_clean =
      Leaves-Restores d st s live (run_encrypt_decrypt s) (run_encrypt_decrypt-Leaves s live)

-- With a library whose replies are as documented, from the state before dlopen, `main` makes no
-- call that the rules of PKCS#11 forbid. Whatever step gave up, it has asked to destroy each
-- object that it created and to end each search and the session that it opened, has called
-- C_Finalize if C_Initialize succeeded, and then dlclose if dlopen succeeded; what the library
-- holds at the end, by its replies, is exactly what it held before and what it refused to
-- release. The exit status is 1, or else 0 and no [FAIL] line was printed.
pub main_clean :
    (d : Device Call Reply) (st : d.State) (indeterminate : ℕ)
    → honest_run d (main indeterminate) st (outside unloaded false) ≡ true
    → Ends
        (run d (main indeterminate) st).value
        (monitor_after d (main indeterminate) st (outside unloaded false))
      × Releases (outside unloaded false) (run d (main indeterminate) st).log
main_clean d st indeterminate g =
    let start = outside unloaded false in
    let (f, em, e) =
      Wp-run protocol d (main indeterminate) Ends start st (main-Ends indeterminate) g in
    (
      (f, em, e),
      after-Releases start (run d (main indeterminate) st).log (ap (λ m. m.broken) em)
          (λ x. ap (counted x) em ∙ counted-failed x start f),
    )
