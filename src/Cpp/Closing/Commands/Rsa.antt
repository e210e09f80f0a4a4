-- ===== src/Cpp/Closing/Commands/Rsa.antt =====
-- doRsa, command by command.
use se05x.Base.{ℕ, refl, Bool, [], codes, ◌||◌, bytes_eq}
use se05x.Cpp.Args.{Args, get}
use se05x.Cpp.Commands.Rsa.{
  rsa_generate, rsa_genkey, rsa_pub, rsa_sign, rsa_verify, rsa_encrypt, rsa_decrypt, rsa_csr,
  do_rsa,
}
use se05x.Cpp.Watching.{inside, Does}
use se05x.Cpp.Watching.Rules.{Does-then, Runs-then, Does-pure, Does-if, Does-raise}
use se05x.Cpp.Closing.{with_key, used, rsa_open-Runs}
use se05x.Cpp.Closing.Rsa.{
  generate-Runs, public_key_der-Runs, sign-Runs, encrypt_bytes-Runs, decrypt_bytes-Runs,
  verify-Does,
}
use se05x.Cpp.Closing.Requests.{make_rsa_csr-Runs}
use se05x.Cpp.Closing.Commands.{
  Finishes, parse_id-Runs, parse_bits-Runs, subject-Runs, read_whole-Runs, hash-Runs,
  emit_text-Runs, emitted, with_key_emitted, force_erase-Does, Erased-cases, reported,
}

module _ (max : ℕ) (a : Args) where
  -- What follows the erasure.
  generated : (id : ℕ) (b : Bool) → Does (rsa_generate a id) Finishes (inside (used b))
  unfolding rsa_generate
  generated id b = Runs-then (parse_bits-Runs b (get a (codes "--bits") [])) λ bits.
      Runs-then (generate-Runs b id bits)
        λ k. Runs-then (public_key_der-Runs k b) λ d. with_key_emitted b a d

  rsa_genkey-Does : Does (rsa_genkey max a) Finishes (inside [])
  unfolding rsa_genkey
  rsa_genkey-Does =
      Runs-then (parse_id-Runs max a)
        λ id. Does-then (force_erase-Does a id) λ _ m e. Erased-cases (generated id) m e

  rsa_pub-Does : Does (rsa_pub max a) Finishes (inside [])
  unfolding rsa_pub
  rsa_pub-Does = Runs-then (parse_id-Runs max a) λ id.
      Runs-then (rsa_open-Runs id)
        λ k. Runs-then (public_key_der-Runs k Bool.false) λ d. emitted (with_key []) refl a d

  rsa_sign-Does : Does (rsa_sign max a) Finishes (inside [])
  unfolding rsa_sign
  rsa_sign-Does = Runs-then (parse_id-Runs max a) λ id. Runs-then (rsa_open-Runs id) λ k.
      Runs-then (read_whole-Runs (with_key []) refl (get a (codes "--in") [])) λ msg.
        Runs-then (hash-Runs (with_key []) refl msg)
          λ digest. Runs-then (sign-Runs k digest) λ sig. emitted (with_key []) refl a sig

  rsa_verify-Does : Does (rsa_verify max a) Finishes (inside [])
  unfolding rsa_verify
  rsa_verify-Does = Runs-then (parse_id-Runs max a) λ id. Runs-then (rsa_open-Runs id) λ k.
      Runs-then (read_whole-Runs (with_key []) refl (get a (codes "--in") [])) λ msg.
        Runs-then (hash-Runs (with_key []) refl msg) λ digest.
          Runs-then (read_whole-Runs (with_key []) refl (get a (codes "--sig") []))
            λ sig. Does-then (verify-Does k digest sig) λ b m e. reported b m e

  rsa_encrypt-Does : Does (rsa_encrypt max a) Finishes (inside [])
  unfolding rsa_encrypt
  rsa_encrypt-Does = Runs-then (parse_id-Runs max a) λ id. Runs-then (rsa_open-Runs id) λ k.
      Runs-then (read_whole-Runs (with_key []) refl (get a (codes "--in") []))
        λ msg. Runs-then (encrypt_bytes-Runs k msg) λ d. emitted (with_key []) refl a d

  rsa_decrypt-Does : Does (rsa_decrypt max a) Finishes (inside [])
  unfolding rsa_decrypt
  rsa_decrypt-Does = Runs-then (parse_id-Runs max a) λ id. Runs-then (rsa_open-Runs id) λ k.
      Runs-then (read_whole-Runs (with_key []) refl (get a (codes "--in") []))
        λ msg. Runs-then (decrypt_bytes-Runs k msg) λ d. emitted (with_key []) refl a d

  rsa_csr-Does : Does (rsa_csr max a) Finishes (inside [])
  unfolding rsa_csr
  rsa_csr-Does = Runs-then (parse_id-Runs max a) λ id. Runs-then (rsa_open-Runs id) λ k.
      Runs-then (subject-Runs a) λ dn. Runs-then (make_rsa_csr-Runs k dn) λ pem.
        Runs-then (emit_text-Runs (with_key []) refl a pem)
          λ _. Does-pure (refl, refl, refl, refl, refl)

  pub do_rsa-Does : Does (do_rsa max a) Finishes (inside [])
  unfolding do_rsa
  do_rsa-Does =
      let cmd = a.command in
      Does-if (bytes_eq cmd (codes "genkey") || bytes_eq cmd (codes "provision"))
        (λ _. rsa_genkey-Does)
        λ _.
          Does-if (bytes_eq cmd (codes "pub")) (λ _. rsa_pub-Does)
            λ _.
              Does-if (bytes_eq cmd (codes "sign")) (λ _. rsa_sign-Does)
                λ _.
                  Does-if (bytes_eq cmd (codes "verify")) (λ _. rsa_verify-Does)
                    λ _.
                      Does-if (bytes_eq cmd (codes "encrypt")) (λ _. rsa_encrypt-Does)
                        λ _.
                          Does-if (bytes_eq cmd (codes "decrypt")) (λ _. rsa_decrypt-Does)
                            λ _.
                              Does-if (bytes_eq cmd (codes "csr")) (λ _. rsa_csr-Does)
                                λ _. Does-raise (refl, refl, refl, refl, refl, refl)
