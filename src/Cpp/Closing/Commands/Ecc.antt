-- ===== src/Cpp/Closing/Commands/Ecc.antt =====
-- doEcc, command by command.
use se05x.Base.{ℕ, refl, Bool, [], codes, ◌||◌, bytes_eq}
use se05x.App.Sss.{sha256}
use se05x.Cpp.Args.{Args, get}
use se05x.Cpp.Commands.Ecc.{
  ecc_generate, ecc_genkey, ecc_pub, ecc_sign, ecc_verify, ecc_ecdh, ecc_csr, do_ecc,
}
use se05x.Cpp.Watching.{inside, Does}
use se05x.Cpp.Watching.Rules.{Does-then, Runs-then, Does-pure, Does-if, Does-raise}
use se05x.Cpp.Closing.{
  with_key, used, ec_open-Runs, ec_generate-Runs, ec_public_key_der-Runs, ec_sign-Runs,
  ec_verify-Does, ecdh_secret-Runs,
}
use se05x.Cpp.Closing.Requests.{make_ec_csr-Runs}
use se05x.Cpp.Closing.Commands.{
  Finishes, parse_id-Runs, parse_curve-Runs, subject-Runs, read_whole-Runs, hash-Runs,
  emit_text-Runs, emitted, with_key_emitted, force_erase-Does, Erased-cases, reported,
}

module _ (max : ℕ) (a : Args) where
  -- What follows the erasure.
  generated : (id : ℕ) (b : Bool) → Does (ecc_generate a id) Finishes (inside (used b))
  unfolding ecc_generate
  generated id b = Runs-then (parse_curve-Runs b (get a (codes "--curve") [])) λ curve.
      Runs-then (ec_generate-Runs b id curve)
        λ k. Runs-then (ec_public_key_der-Runs b) λ d. with_key_emitted b a d

  ecc_genkey-Does : Does (ecc_genkey max a) Finishes (inside [])
  unfolding ecc_genkey
  ecc_genkey-Does =
      Runs-then (parse_id-Runs max a)
        λ id. Does-then (force_erase-Does a id) λ _ m e. Erased-cases (generated id) m e

  ecc_pub-Does : Does (ecc_pub max a) Finishes (inside [])
  unfolding ecc_pub
  ecc_pub-Does = Runs-then (parse_id-Runs max a) λ id.
      Runs-then (ec_open-Runs id)
        λ k. Runs-then (ec_public_key_der-Runs Bool.false) λ d. emitted (with_key []) refl a d

  ecc_sign-Does : Does (ecc_sign max a) Finishes (inside [])
  unfolding ecc_sign
  ecc_sign-Does = Runs-then (parse_id-Runs max a) λ id. Runs-then (ec_open-Runs id) λ k.
      Runs-then (read_whole-Runs (with_key []) refl (get a (codes "--in") [])) λ msg.
        Runs-then (hash-Runs (with_key []) refl msg) λ digest.
          Runs-then (ec_sign-Runs (record k { sig_algo = sha256 }) digest)
            λ sig. emitted (with_key []) refl a sig

  ecc_verify-Does : Does (ecc_verify max a) Finishes (inside [])
  unfolding ecc_verify
  ecc_verify-Does = Runs-then (parse_id-Runs max a) λ id. Runs-then (ec_open-Runs id) λ k.
      Runs-then (read_whole-Runs (with_key []) refl (get a (codes "--in") [])) λ msg.
        Runs-then (hash-Runs (with_key []) refl msg) λ digest.
          Runs-then (read_whole-Runs (with_key []) refl (get a (codes "--sig") [])) λ sig.
            Does-then (ec_verify-Does (record k { sig_algo = sha256 }) digest sig)
              λ b m e. reported b m e

  ecc_ecdh-Does : Does (ecc_ecdh max a) Finishes (inside [])
  unfolding ecc_ecdh
  ecc_ecdh-Does = Runs-then (parse_id-Runs max a) λ id. Runs-then (ec_open-Runs id) λ k.
      Runs-then (read_whole-Runs (with_key []) refl (get a (codes "--peer") []))
        λ peer. Runs-then (ecdh_secret-Runs k peer) λ d. emitted _ refl a d

  ecc_csr-Does : Does (ecc_csr max a) Finishes (inside [])
  unfolding ecc_csr
  ecc_csr-Does = Runs-then (parse_id-Runs max a) λ id. Runs-then (ec_open-Runs id) λ k.
      Runs-then (subject-Runs a) λ dn.
        Runs-then (make_ec_csr-Runs (record k { sig_algo = sha256 }) dn) λ pem.
          Runs-then (emit_text-Runs (with_key []) refl a pem)
            λ _. Does-pure (refl, refl, refl, refl, refl)

  pub do_ecc-Does : Does (do_ecc max a) Finishes (inside [])
  unfolding do_ecc
  do_ecc-Does =
      let cmd = a.command in
      Does-if (bytes_eq cmd (codes "genkey") || bytes_eq cmd (codes "provision"))
        (λ _. ecc_genkey-Does)
        λ _.
          Does-if (bytes_eq cmd (codes "pub")) (λ _. ecc_pub-Does)
            λ _.
              Does-if (bytes_eq cmd (codes "sign")) (λ _. ecc_sign-Does)
                λ _.
                  Does-if (bytes_eq cmd (codes "verify")) (λ _. ecc_verify-Does)
                    λ _.
                      Does-if (bytes_eq cmd (codes "ecdh")) (λ _. ecc_ecdh-Does)
                        λ _.
                          Does-if (bytes_eq cmd (codes "csr")) (λ _. ecc_csr-Does)
                            λ _. Does-raise (refl, refl, refl, refl, refl, refl)
