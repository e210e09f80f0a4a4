-- ===== src/Cpp/Der/Writing.antt =====
-- cpp_app/csr.cpp writes the DER that is meant.
use se05x.Base.{
  ℕ, ◌+◌, ◌*◌, ◌-◌, arith, ==_eq, ltb, ◌≡◌, refl, ap, subst, ◌∙◌, Bool, true, false, List, [], ◌++◌,
  length,
}
use mathlib.Core.List.{append-nil, append_assoc}
use se05x.App.Sss.{
  is_success, Write, names, string_to_names, write_len, write_tag, write_int, write_oid,
  write_bitstring, write_algorithm_identifier, init, free, write_names, pem_write_buffer,
}
use se05x.App.Csr.{Written, empty}
use se05x.App.Der.{Draft, in_sequence, info_der, request_der}
use se05x.App.Der.Rules.{Holds, Holds-take, Holds-front, length-append}
use se05x.Cpp.Calls.{Text, sss}
use se05x.Cpp.Csr.{
  paste, wrap, subject_and_version, build_cri, write_sig_alg_id, to_pem, assemble_csr,
}
use se05x.Cpp.Makes.{
  Makes, Yields, Yields-then, Yields-last, Makes-pure, Makes-raise, Makes-if, Makes-call,
}
use se05x.Cpp.Der.{signed_with, tested, chk-Grows, chk-Yields, observing}

-- A copy in front.
Holds-paste : (xs : List ℕ) (b : Written) (ys : List ℕ) → Holds b ys → Holds (paste xs b) (xs ++ ys)
Holds-paste xs b ys h = Holds-front b ys xs xs (length xs) h refl refl

module _ (enc : Write → List ℕ) where
  wrap-Yields :
      {m : Draft} (size : ℕ) (b : Written) (xs : List ℕ)
      → Holds b xs
      → Yields (observing enc) (wrap size b) (λ l. l ≡ in_sequence enc xs) m
  unfolding wrap
  wrap-Yields size b xs h =
      let length_right : enc (write_len b.len) ≡ enc (write_len (length xs)) =
        ap (λ n. enc (write_len n)) h.1 in
      Yields-then (observing enc) (chk-Yields enc (write_len b.len) size b xs h) λ c hc.
        Yields-then (observing enc)
          (chk-Yields enc (write_tag 0x30) size c (enc (write_len b.len) ++ xs) hc)
          λ e he.
            Makes-pure (observing enc)
              (refl, Holds-take e _ he ∙ ap (λ l. enc (write_tag 0x30) ++ (l ++ xs)) length_right)

  -- The CertificationRequestInfo of the public key and the subject.
  abbrev pub Informs : List ℕ → Draft → Type 0
  Informs cri m = cri ≡ info_der enc m.subject m.spki

  subject_and_version-Makes :
      {m : Draft} (b : Written)
      → Holds b (m.spki ++ (enc (write_tag 0xA0) ++ enc (write_len 0)))
      → Makes (observing enc) (subject_and_version b) Informs m
  unfolding subject_and_version
  subject_and_version-Makes {m} b h =
      let rest = m.spki ++ (enc (write_tag 0xA0) ++ enc (write_len 0)) in
      let w = write_names (4096 - length b.content) in
      Makes-call (observing enc) (sss w) _ λ r g.
        Makes-call (observing enc) (sss (free names)) _ λ _ _.
          let m' : Draft = record m { subject = r.bytes } in
          Yields-then (observing enc) {q' = λ c. Holds c (r.bytes ++ rest)}
            (tested enc _ w r g λ k. Makes-pure (observing enc) (
              refl,
              Holds-front b rest r.bytes r.bytes r.len h refl (==_eq r.len (length r.bytes) k),
            ))
            λ c hc.
              Yields-then (observing enc) (chk-Yields enc (write_int 0) 4096 c (r.bytes ++ rest) hc)
                λ e he.
                  Yields-last (observing enc)
                    (wrap-Yields 4096 e (enc (write_int 0) ++ (r.bytes ++ rest)) he) λ l hl. hl

  pub build_cri-Makes :
      {m : Draft} (dn : Text) (spki : List ℕ)
      → spki ≡ m.spki
      → Makes (observing enc) (build_cri dn spki) Informs m
  unfolding build_cri
  build_cri-Makes {m} dn spki e =
      let start = init names (string_to_names dn) in
      let none = enc (write_len 0) in
      let tagged = enc (write_tag 0xA0) ++ none in
      Makes-call (observing enc) (sss start) _ λ n g.
        Yields-then (observing enc) {q' = λ _. Unit {0}}
          (tested enc _ start n g λ _. Makes-pure (observing enc) (refl, tt))
          λ _ _.
            Yields-then (observing enc) (chk-Yields enc (write_len 0) 4096 empty [] (refl, refl))
              λ a ha.
                Yields-then (observing enc)
                  (chk-Yields enc (write_tag 0xA0) 4096 a none
                    (subst (Holds a) (append-nil none) ha))
                  λ b hb.
                    Yields-then (observing enc) {q' = λ _. Unit {0}}
                      (Makes-if (observing enc) (ltb (4096 - length b.content) (length spki))
                        (λ _.
                          Makes-call (observing enc) (sss (free names)) _
                            λ _ _. Makes-raise (observing enc))
                        (λ _. Makes-pure (observing enc) (refl, tt)))
                      λ _ _. subject_and_version-Makes (paste spki b) (
                        subst (λ xs. Holds (paste spki b) (xs ++ tagged)) e
                          (Holds-paste spki b tagged hb))

  -- The algorithm is put in front of `bits`, and its length is counted.
  write_sig_alg_id-Yields :
      {m : Draft} (size : ℕ) (is_ec : Bool) (bits : List ℕ)
      → Yields
          (observing enc)
          (write_sig_alg_id size is_ec bits)
          (λ b.
            (b.content ≡ signed_with enc is_ec ++ bits) × (b.len ≡ length (signed_with enc is_ec)))
          m
  unfolding write_sig_alg_id
  write_sig_alg_id-Yields size true bits =
      let o = enc (write_oid "MBEDTLS_OID_ECDSA_SHA256") in
      let t = enc (write_tag 0x30) in
      let l = enc (write_len (length o)) in
      Yields-then (observing enc) (chk-Grows enc (write_oid "MBEDTLS_OID_ECDSA_SHA256") size _)
        λ a ha. Yields-then (observing enc) (chk-Grows enc (write_len a.len) size a) λ b hb.
          Yields-last (observing enc) (chk-Grows enc (write_tag 0x30) size b) λ c hc.
            let ea : a.len ≡ length o = omega (arith, ha.1) in
            let el : enc (write_len a.len) ≡ l = ap (λ n. enc (write_len n)) ea in
            (
              refl,
              (
                rw (hc.0, hb.0, ha.0, el, append_assoc t (l ++ o) bits, append_assoc l o bits) refl,
                omega (
                  arith,
                  hc.1,
                  hb.1,
                  ea,
                  ap length el,
                  length-append t (l ++ o),
                  length-append l o,
                ),
              ),
            )
  write_sig_alg_id-Yields size false bits =
      Yields-last (observing enc)
        (chk-Grows enc (write_algorithm_identifier "MBEDTLS_OID_PKCS1_SHA256" true) size _)
        λ a ha. (refl, (ha.0, omega (arith, ha.1)))

  to_pem-Makes :
      {m : Draft} (der : List ℕ)
      → Makes (observing enc) (to_pem der) (λ _ m'. m' ≡ record m { der = der }) m
  unfolding to_pem
  to_pem-Makes der =
      Makes-call (observing enc) (sss (pem_write_buffer der (length der * 2 + 256))) _ λ r g.
        Makes-if (observing enc) (is_success r) (λ _. Makes-pure (observing enc) refl)
          (λ _. Makes-raise (observing enc))

  pub assemble_csr-Makes :
      {m : Draft} (cri sig : List ℕ) (is_ec : Bool)
      → Makes
          (observing enc)
          (assemble_csr cri sig is_ec)
          (λ _ m'. m' ≡ record m { der = request_der enc cri (signed_with enc is_ec) sig })
          m
  unfolding assemble_csr
  assemble_csr-Makes {m} cri sig is_ec =
      let alg = signed_with enc is_ec in
      let bits = enc (write_bitstring sig (length sig * 8)) in
      Yields-then (observing enc)
        (chk-Yields enc (write_bitstring sig (length sig * 8)) 8192 empty [] (refl, refl))
        λ a ha. Yields-then (observing enc) (write_sig_alg_id-Yields 8192 is_ec a.content) λ b hb.
          let c : Written = record b { len = a.len + b.len } in
          let bits_only = append-nil bits in
          let hc : Holds c (alg ++ bits) = (
            rw (hb.0, ha.0, bits_only) refl,
            omega (arith, hb.1, ha.1, ap length bits_only, length-append alg bits),
          ) in
          Yields-then (observing enc) {q' = λ _. Unit {0}}
            (Makes-if (observing enc) (ltb (8192 - length b.content) (length cri))
              (λ _. Makes-raise (observing enc)) (λ _. Makes-pure (observing enc) (refl, tt)))
            λ _ _.
              Yields-then (observing enc)
                (wrap-Yields 8192 (paste cri c) (cri ++ (alg ++ bits))
                  (Holds-paste cri c (alg ++ bits) hc))
                λ der hd.
                  subst
                    (λ l. Makes (observing enc) (to_pem der) (λ _ m'. m' ≡ record m { der = l }) m)
                    hd (to_pem-Makes der)
