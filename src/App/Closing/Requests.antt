-- ===== src/App/Closing/Requests.antt =====
-- The functions of app/ that build a certification request.
use se05x.Base.{
  codes, ℕ, refl, sym, subst, not, ◌||◌, inl, inr, Bool, false, List, [], ◌∷◌, ◌++◌, ◌+◌, ◌*◌, take,
}
use se05x.Prog.Hoare.{Wp, Wp-if}
use se05x.App.Sss.{
  Sss, fail, key_pair, asym, names, mode_sign, object, asymmetric_context, string_to_names, init,
  get_handle, get_key, sha256_ret, sign_digest, pem_write_buffer, is_success, Write, write_len,
  write_tag, write_int, write_raw_buffer, write_bitstring, write_algorithm_identifier,
}
use se05x.App.Csr.{
  Request, ec_request, rsa_request, Written, empty, chk_add, csr_cleanup, sequence,
  subject_and_version, request_info, assemble, write_files, sign_request, csr, demo_ec_csr,
  demo_rsa_csr,
}
use se05x.App.Watching.{Contexts, contexts, amid, Ends, fresh}
use se05x.App.Watching.Rules.{Wp-on_success, Wp-chk_add}

module _ (p : List ℕ) where
  -- With the key open and nothing else.
  abbrev with_key : Contexts
  with_key = amid ((key_pair, object) ∷ []) p

  -- A writer, after which the rest ends well.
  chk_add-Ends :
      (w : Write) (size : ℕ) (b : Written) (next : Written → Sss ℕ)
      → ((c : Written) → Wp contexts (next c) Ends with_key)
      → Wp contexts (chk_add w size b next) Ends with_key
  chk_add-Ends w size b next h =
      Wp-chk_add w size b next Ends with_key h (λ _ bad. inr (refl, refl, refl, bad))

  sequence-Ends :
      (size : ℕ) (b : Written) (next : List ℕ → Sss ℕ)
      → ((l : List ℕ) → Wp contexts (next l) Ends with_key)
      → Wp contexts (sequence size b next) Ends with_key
  unfolding sequence
  sequence-Ends size b next h =
      let done : Written → Sss ℕ = λ e. next (take e.len e.content) in
      chk_add-Ends (write_len b.len) size b (λ c. chk_add (write_tag 0x30) size c done)
        λ c. chk_add-Ends (write_tag 0x30) size c done λ e. h (take e.len e.content)

  -- The names are encoded, or not, and freed.
  abbrev names_freed : (encoded : Bool) → Contexts
  names_freed encoded = record with_key { failed = not encoded || false }

  subject_and_version-Ends :
      (size : ℕ) (b : Written) (next : List ℕ → Sss ℕ)
      → ((l : List ℕ) → Wp contexts (next l) Ends with_key)
      → Wp contexts (subject_and_version size b next) Ends with_key
  unfolding subject_and_version csr_cleanup
  subject_and_version-Ends size b next h =
      Wp-on_success (init names (string_to_names (codes "CN=SE051-Demo"))) _ _ _ with_key
        (λ _ r _ _ _.
          let c : Written = record { content = r.bytes ++ b.content; len = b.len + r.len } in
          let version : Written → Sss ℕ = λ v. sequence size v next in
          let encoded = chk_add (write_int 0) size c version in
          Wp-if contexts (is_success r) encoded (csr_cleanup fail) Ends (names_freed (is_success r))
            (λ ok.
              subst (λ a. Wp contexts encoded Ends (names_freed a)) (sym ok)
                (chk_add-Ends (write_int 0) size c version λ v. sequence-Ends size v next h))
            (λ bad.
              subst (λ a. Wp contexts (csr_cleanup fail) Ends (names_freed a)) (sym bad)
                (λ _ _ _ _. inl (refl, refl, refl, refl))))
        (λ _ _ _ _ _ _. inl (refl, refl, refl, refl))

  request_info-Ends :
      (size : ℕ) (spki : List ℕ) (next : List ℕ → Sss ℕ)
      → ((l : List ℕ) → Wp contexts (next l) Ends with_key)
      → Wp contexts (request_info size spki next) Ends with_key
  unfolding request_info
  request_info-Ends size spki next h =
      let subject : Written → Sss ℕ = λ c. subject_and_version size c next in
      let raw : Written → Sss ℕ = λ b. chk_add (write_raw_buffer spki) size b subject in
      chk_add-Ends (write_len 0) size empty (λ a. chk_add (write_tag 0xA0) size a raw)
        λ a. chk_add-Ends (write_tag 0xA0) size a raw λ b.
          chk_add-Ends (write_raw_buffer spki) size b subject
            λ c. subject_and_version-Ends size c next h

  assemble-Ends :
      (q : Request) (sig : List ℕ) (n : ℕ) (cri : List ℕ) (next : List ℕ → Sss ℕ)
      → ((l : List ℕ) → Wp contexts (next l) Ends with_key)
      → Wp contexts (assemble q sig n cri next) Ends with_key
  unfolding assemble
  assemble-Ends q sig n cri next h =
      let oid = write_algorithm_identifier q.oid q.has_parameters in
      let outer : Written → Sss ℕ = λ c. sequence q.csr_size c next in
      let raw : Written → Sss ℕ = λ b. chk_add (write_raw_buffer cri) q.csr_size b outer in
      chk_add-Ends (write_bitstring sig (n * 8)) q.csr_size empty
        (λ a. chk_add oid q.csr_size a raw)
        λ a. chk_add-Ends oid q.csr_size a raw λ b.
          chk_add-Ends (write_raw_buffer cri) q.csr_size b outer
            λ c. sequence-Ends q.csr_size c next h

  write_files-Ends : (q : Request) (l : List ℕ) → Wp contexts (write_files q l) Ends with_key
  unfolding write_files csr_cleanup
  write_files-Ends q l = λ _ _.
      Wp-on_success (pem_write_buffer l q.csr_size) _ _ _ with_key
        (λ _ _ _ _ _ _ _. inl (refl, refl, refl, refl))
        (λ _ _ _ _ _ _. inl (refl, refl, refl, refl))

  sign_request-Ends : (q : Request) (cri : List ℕ) → Wp contexts (sign_request q cri) Ends with_key
  unfolding sign_request csr_cleanup
  sign_request-Ends q cri =
      Wp-on_success (sha256_ret cri) _ _ _ with_key
        (λ h.
          Wp-on_success (init asym (asymmetric_context key_pair q.algorithm mode_sign)) _ _ _
            with_key
            (λ _.
              Wp-on_success (sign_digest (take 32 h.bytes) q.sig_room) _ _ _
                (amid
                  ((asym, asymmetric_context key_pair q.algorithm mode_sign)
                    ∷ (key_pair, object)
                    ∷ [])
                  p)
                (λ s _ _.
                  assemble-Ends q (take s.len s.bytes) s.len cri (write_files q)
                    (write_files-Ends q))
                (λ _ bad _ _ _ _. inl (refl, refl, refl, bad)))
            (λ _ bad _ _ _ _. inl (refl, refl, refl, bad)))
        (λ _ _ _ _ _ _. inl (refl, refl, refl, refl))

  csr-Ends : (q : Request) → Wp contexts (csr q) Ends (fresh p)
  unfolding csr csr_cleanup
  csr-Ends q =
      Wp-on_success (init key_pair object) _ _ _ (fresh p)
        (λ _.
          Wp-on_success (get_handle key_pair q.key_id) _ _ _ with_key
            (λ _.
              Wp-on_success (get_key key_pair q.spki_room) _ _ _ with_key
                (λ k.
                  request_info-Ends q.cri_size (take k.len k.bytes) (sign_request q)
                    (sign_request-Ends q))
                (λ _ bad _ _ _ _. inl (refl, refl, refl, bad)))
            (λ _ bad _ _ _ _. inl (refl, refl, refl, bad)))
        (λ _ bad _ _ _ _. inl (refl, refl, refl, bad))

  pub demo_ec_csr-Ends : Wp contexts demo_ec_csr Ends (fresh p)
  unfolding demo_ec_csr
  demo_ec_csr-Ends = csr-Ends ec_request

  pub demo_rsa_csr-Ends : Wp contexts demo_rsa_csr Ends (fresh p)
  unfolding demo_rsa_csr
  demo_rsa_csr-Ends = csr-Ends rsa_request
