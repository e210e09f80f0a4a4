-- ===== src/Cpp/Der/Requests.antt =====
-- cpp_app/csr.cpp drafts the request that is meant.
use se05x.Base.{ℕ, ◌+◌, ◌/◌, ◌==◌, ◌≡◌, refl, sym, subst, Bool, true, false, List, length, take}
use se05x.Prog.{Device, run}
use se05x.Prog.Hoare.{Wp-run, after, all_honest}
use se05x.App.Sss.{
  Reply, Write, asym, key_pair, mode_sign, asymmetric_context, init, get_key, sign_digest,
  sha256_ret, rsassa_pkcs1_v1_5_sha256,
}
use se05x.App.Der.{Draft, Certifies}
use se05x.Cpp.Calls.{sss, Text, Cpp, Call, ok}
use se05x.Cpp.EcKey
use se05x.Cpp.EcKey.{EcKey}
use se05x.Cpp.RsaKey
use se05x.Cpp.RsaKey.{RsaKey}
use se05x.Cpp.Csr.{assemble_csr, make_csr_impl, make_ec_csr, make_rsa_csr}
use se05x.App.Der.Rules.{kept}
use se05x.Cpp.Makes.{
  Makes, Makes-then, Yields-then, Makes-last, Makes-pure, Makes-call, check-Makes,
  check_after-Makes, Returns, as_vector,
}
use se05x.Cpp.Der.{observing, signed_with, tested}
use se05x.Cpp.Der.Writing.{Informs, build_cri-Makes, assemble_csr-Makes}

-- A key of either class.
pub data Key : Type 0 where
  ec : EcKey → Key
  rsa : RsaKey → Key

abbrev pub make_csr : Key → (subject_dn : Text) → Cpp Text
make_csr (ec k) dn = make_ec_csr k dn
make_csr (rsa k) dn = make_rsa_csr k dn

abbrev pub is_ec_key : Key → Bool
is_ec_key (ec k) = true
is_ec_key (rsa k) = false

module _ (enc : Write → List ℕ) where
  -- The signature of `d` is noted.
  abbrev Signs : Draft → (d : List ℕ) → List ℕ → Draft → Type 0
  Signs m d sig m' = m' ≡ record m { signed = d; signature = sig }

  ec_sign-Makes :
      {m : Draft} (k : EcKey) (d : List ℕ) → Makes (observing enc) (EcKey.sign k d) (Signs m d) m
  unfolding EcKey.sign
  ec_sign-Makes {m} k d =
      Yields-then (observing enc) {q' = λ _. Unit {0}}
        (check-Makes (observing enc) (init asym (asymmetric_context key_pair k.sig_algo mode_sign))
          _ (λ r g s. (refl, tt)))
        λ _ _.
          Makes-then (observing enc)
            {q' = λ r m'. Signs m d r.bytes m' × ((r.len == length r.bytes) ≡ true)}
            (check_after-Makes (observing enc) (sign_digest d 256) asym _
              (λ r r' g s. (refl, kept enc (sign_digest d 256) r s g)))
            λ r m' h. as_vector (observing enc) 256 r h.1 h.0

  rsa_sign-Makes :
      {m : Draft} (k : RsaKey) (d : List ℕ) → Makes (observing enc) (RsaKey.sign k d) (Signs m d) m
  unfolding RsaKey.sign
  rsa_sign-Makes {m} k d =
      Yields-then (observing enc) {q' = λ _. Unit {0}}
        (check-Makes (observing enc)
          (init asym (asymmetric_context key_pair rsassa_pkcs1_v1_5_sha256 mode_sign)) _
          (λ r g s. (refl, tt)))
        λ _ _.
          Makes-then (observing enc)
            {q' = λ r m'. Signs m d r.bytes m' × ((r.len == length r.bytes) ≡ true)}
            (check_after-Makes (observing enc) (sign_digest d (k.bits / 8)) asym _
              (λ r r' g s. (refl, kept enc (sign_digest d (k.bits / 8)) r s g)))
            λ r m' h. as_vector (observing enc) (k.bits / 8) r h.1 h.0

  make_csr_impl-Makes :
      {m : Draft} (dn : Text) (spki : List ℕ) (sign : List ℕ → Cpp (List ℕ)) (is_ec : Bool)
      → spki ≡ m.spki
      → ((m' : Draft) (d : List ℕ) → Makes (observing enc) (sign d) (Signs m' d) m')
      → Makes
          (observing enc)
          (make_csr_impl dn spki sign is_ec)
          (λ _. Certifies enc (signed_with enc is_ec))
          m
  unfolding make_csr_impl
  make_csr_impl-Makes {m} dn spki sign is_ec e h =
      Makes-then (observing enc) {q' = Informs enc} (build_cri-Makes enc dn spki e) λ cri m1 info.
        Makes-call (observing enc) (sss (sha256_ret cri)) _ λ r g.
          let d = take 32 r.bytes in
          let m2 : Draft = record m1 { hashed = cri; digest = d } in
          Yields-then (observing enc) {q' = λ _. Unit {0}}
            (tested enc _ (sha256_ret cri) r g λ _. Makes-pure (observing enc) (refl, tt))
            λ _ _. Makes-then (observing enc) {q' = Signs m2 d} (h m2 d) λ sig m3 s.
              let meant = Certifies enc (signed_with enc is_ec) in
              subst (Makes (observing enc) (assemble_csr cri sig is_ec) (λ _. meant)) (sym s) (
                Makes-last (observing enc) (assemble_csr-Makes enc cri sig is_ec)
                  (λ pem m' e. subst meant (sym e) (info, refl, refl)))

  -- The public key that was read is noted, whole.
  abbrev Exports : List ℕ → Draft → Type 0
  Exports spki m = spki ≡ m.spki

  make_ec_csr-Makes :
      {m : Draft} (k : EcKey) (dn : Text)
      → Makes (observing enc) (make_ec_csr k dn) (λ _. Certifies enc (signed_with enc true)) m
  unfolding make_ec_csr EcKey.public_key_der
  make_ec_csr-Makes k dn =
      Makes-then (observing enc) {q' = Exports}
        (Makes-then (observing enc)
          {q' = λ r m'. (r.bytes ≡ m'.spki) × ((r.len == length r.bytes) ≡ true)}
          (check-Makes (observing enc) (get_key key_pair 256) _
            (λ r g s. (refl, kept enc (get_key key_pair 256) r s g)))
          λ r m' h. as_vector (observing enc) 256 r h.1 h.0)
        λ spki m' e. make_csr_impl-Makes dn spki (EcKey.sign k) true e (λ m d. ec_sign-Makes k d)

  make_rsa_csr-Makes :
      {m : Draft} (k : RsaKey) (dn : Text)
      → Makes (observing enc) (make_rsa_csr k dn) (λ _. Certifies enc (signed_with enc false)) m
  unfolding make_rsa_csr RsaKey.public_key_der
  make_rsa_csr-Makes k dn =
      Makes-then (observing enc) {q' = Exports}
        (Makes-then (observing enc)
          {q' = λ r m'. (r.bytes ≡ m'.spki) × ((r.len == length r.bytes) ≡ true)}
          (check-Makes (observing enc) (get_key key_pair (k.bits / 8 + 64)) _
            (λ r g s. (refl, kept enc (get_key key_pair (k.bits / 8 + 64)) r s g)))
          λ r m' h. as_vector (observing enc) (k.bits / 8 + 64) r h.1 h.0)
        λ spki m' e. make_csr_impl-Makes dn spki (RsaKey.sign k) false e (λ m d. rsa_sign-Makes k d)

  -- From the rules to runs.
  runs :
      {A : Type 0} (d : Device Call Reply) (st : d.State) (m : Draft) (p : Cpp A)
      (q : A → Draft → Type 0) {a : A}
      → Makes (observing enc) p q m
      → all_honest (observing enc) m (run d p st).log ≡ true
      → (run d p st).value ≡ ok a
      → q a (after (observing enc) m (run d p st).log)
  runs d st m p q h g e =
      subst (λ v. Returns (observing enc) q v (after (observing enc) m (run d p st).log)) e
        (Wp-run (observing enc) d p (Returns (observing enc) q) m st h.every g)

  -- Against libraries whose writers write the bytes `enc`, and whose successful calls report the length
  -- of what they wrote: if `makeCsr` of a key returns, without an exception, then what it hashed is the
  -- SEQUENCE of version 0, of the subject that was written, of the whole public key that was read and
  -- of an empty set of attributes, each length right; what it signed is that hash; and what it encoded
  -- as PEM is the SEQUENCE of what it hashed, of the algorithm, and of the whole signature as a bit
  -- string of 8 bits a byte. The algorithm is for an EC key the SEQUENCE of its object identifier alone,
  -- and for an RSA key what mbedTLS writes with parameters.
  pub make_csr-Certifies :
      (d : Device Call Reply) (st : d.State) (m : Draft) (k : Key) (dn pem : Text)
      → all_honest (observing enc) m (run d (make_csr k dn) st).log ≡ true
      → (run d (make_csr k dn) st).value ≡ ok pem
      → Certifies enc
          (signed_with enc (is_ec_key k))
          (after (observing enc) m (run d (make_csr k dn) st).log)
  make_csr-Certifies d st m (ec k) dn pem =
      runs d st m (make_ec_csr k dn) (λ _. Certifies enc (signed_with enc true))
        (make_ec_csr-Makes k dn)
  make_csr-Certifies d st m (rsa k) dn pem =
      runs d st m (make_rsa_csr k dn) (λ _. Certifies enc (signed_with enc false))
        (make_rsa_csr-Makes k dn)
