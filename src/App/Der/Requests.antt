-- ===== src/App/Der/Requests.antt =====
-- demo_ec_csr and demo_rsa_csr draft the request that is meant.
use se05x.Base.{
  ℕ, ◌*◌, ◌≡◌, refl, sym, ap, ◌∙◌, subst, true, false, List, [], ◌++◌, ◌+◌, ◌-◌, ◌==◌, ==_eq,
  length, take, take-length, codes,
}
use mathlib.Core.List.{append-nil}
use se05x.Prog.{Device, run}
use se05x.Prog.Hoare.{Wp, Wp-if, Wp-run, after, all_honest}
use se05x.App.Sss.{
  Call, Reply, Sss, success, fail, is_success, key_pair, asym, names, mode_sign, object,
  asymmetric_context, string_to_names, init, get_handle, get_key, sha256_ret, sign_digest,
  pem_write_buffer, write_names, Write, write_len, write_tag, write_int, write_raw_buffer,
  write_bitstring, write_algorithm_identifier,
}
use se05x.App.Csr.{
  Request, Written, empty, chk_add, csr_cleanup, sequence, subject_and_version, request_info,
  assemble, write_files, sign_request, csr,
}
use se05x.App.Der.{Draft, drafting, in_sequence, info_der, request_der, Certifies}
use se05x.App.Der.Rules.{Holds, Holds-take, Holds-front, kept, Wp-success, chk_add-Holds}

module _ (enc : Write → List ℕ) (raw : (xs : List ℕ) → enc (write_raw_buffer xs) ≡ xs)
    (q : Request) where
  abbrev pub algorithm_der : List ℕ
  algorithm_der = enc (write_algorithm_identifier q.oid q.has_parameters)

  -- If the status is success, the request is as it is meant.
  abbrev Drafts : ℕ → Draft → Type 0
  Drafts status m = (status == success) ≡ true → Certifies enc algorithm_der m

  gives_up : (status : ℕ) (m : Draft) → (status == success) ≡ false → Drafts status m
  gives_up status m f ok = cc

  sequence-Drafts :
      (size : ℕ) (b : Written) (xs : List ℕ) (next : List ℕ → Sss ℕ) (m : Draft)
      → Holds b xs
      → Wp (drafting enc) (next (in_sequence enc xs)) Drafts m
      → Wp (drafting enc) (sequence size b next) Drafts m
  unfolding sequence
  sequence-Drafts size b xs next m h k =
      let done : Written → Sss ℕ = λ e. next (take e.len e.content) in
      let length_right : enc (write_len b.len) ≡ enc (write_len (length xs)) =
        ap (λ n. enc (write_len n)) h.1 in
      chk_add-Holds enc (write_len b.len) size b xs (λ c. chk_add (write_tag 0x30) size c done)
        Drafts m h
        (λ c hc.
          chk_add-Holds enc (write_tag 0x30) size c (enc (write_len b.len) ++ xs) done Drafts m hc
            (λ e he.
              subst (λ l. Wp (drafting enc) (next l) Drafts m)
                (sym (Holds-take e _ he ∙ ap (λ l. enc (write_tag 0x30) ++ (l ++ xs)) length_right))
                k)
            (λ s. gives_up s m))
        (λ s. gives_up s m)

  subject_and_version-Drafts :
      (size : ℕ) (b : Written) (spki : List ℕ) (next : List ℕ → Sss ℕ) (m : Draft)
      → Holds b (spki ++ (enc (write_tag 0xA0) ++ enc (write_len 0)))
      → ((subject : List ℕ)
          → Wp
              (drafting enc)
              (next (info_der enc subject spki))
              Drafts
              (record m { subject = subject }))
      → Wp (drafting enc) (subject_and_version size b next) Drafts m
  unfolding subject_and_version csr_cleanup
  subject_and_version-Drafts size b spki next m h k =
      Wp-success enc (init names (string_to_names (codes "CN=SE051-Demo"))) _ _ Drafts m
        (λ _ _ r g _ _.
          let rest = spki ++ (enc (write_tag 0xA0) ++ enc (write_len 0)) in
          let c : Written = record { content = r.bytes ++ b.content; len = b.len + r.len } in
          let version : Written → Sss ℕ = λ e. sequence size e next in
          let m' : Draft = record m { subject = r.bytes } in
          Wp-if (drafting enc) (is_success r) (chk_add (write_int 0) size c version)
            (csr_cleanup fail) Drafts m'
            (λ s.
              chk_add-Holds enc (write_int 0) size c (r.bytes ++ rest) version Drafts m'
                (Holds-front b rest r.bytes r.bytes r.len h refl (
                  ==_eq r.len (length r.bytes)
                    (kept enc (write_names (size - length b.content)) r s g)))
                (λ e he.
                  sequence-Drafts size e (enc (write_int 0) ++ (r.bytes ++ rest)) next m' he
                    (k r.bytes))
                (λ status. gives_up status m'))
            (λ _ _ _ _ _ bad. cc))
        (λ _ _ _ _ _ _ bad. cc)

  write_files-Drafts :
      (l : List ℕ) (m : Draft)
      → Certifies enc algorithm_der (record m { der = l })
      → Wp (drafting enc) (write_files q l) Drafts m
  unfolding write_files csr_cleanup
  write_files-Drafts l m h = λ _ _.
      Wp-success enc (pem_write_buffer l q.csr_size) _ _ Drafts m (λ _ _ _ _ _ _ _ _ _. h)
        (λ _ _ _ _ _ _ _. h)

  request_info-Drafts :
      (size : ℕ) (spki : List ℕ) (next : List ℕ → Sss ℕ) (m : Draft)
      → ((subject : List ℕ)
          → Wp
              (drafting enc)
              (next (info_der enc subject spki))
              Drafts
              (record m { subject = subject }))
      → Wp (drafting enc) (request_info size spki next) Drafts m
  unfolding request_info
  request_info-Drafts size spki next m k =
      let subject : Written → Sss ℕ = λ c. subject_and_version size c next in
      let key : Written → Sss ℕ = λ b. chk_add (write_raw_buffer spki) size b subject in
      let none = enc (write_len 0) in
      let tagged = enc (write_tag 0xA0) ++ none in
      chk_add-Holds enc (write_len 0) size empty [] (λ a. chk_add (write_tag 0xA0) size a key)
        Drafts m (refl, refl)
        (λ a ha.
          chk_add-Holds enc (write_tag 0xA0) size a none key Drafts m
            (subst (Holds a) (append-nil none) ha)
            (λ b hb.
              chk_add-Holds enc (write_raw_buffer spki) size b tagged subject Drafts m hb
                (λ c hc.
                  subject_and_version-Drafts size c spki next m
                    (subst (λ xs. Holds c (xs ++ tagged)) (raw spki) hc) k)
                (λ s. gives_up s m))
            (λ s. gives_up s m))
        (λ s. gives_up s m)

  assemble-Drafts :
      (sig : List ℕ) (n : ℕ) (cri : List ℕ) (next : List ℕ → Sss ℕ) (m : Draft)
      → n ≡ length sig
      → Wp (drafting enc) (next (request_der enc cri algorithm_der sig)) Drafts m
      → Wp (drafting enc) (assemble q sig n cri next) Drafts m
  unfolding assemble
  assemble-Drafts sig n cri next m e k =
      let oid = write_algorithm_identifier q.oid q.has_parameters in
      let outer : Written → Sss ℕ = λ c. sequence q.csr_size c next in
      let info : Written → Sss ℕ = λ b. chk_add (write_raw_buffer cri) q.csr_size b outer in
      let bits = enc (write_bitstring sig (length sig * 8)) in
      let first : (enc (write_bitstring sig (n * 8)) ++ []) ≡ bits =
        append-nil (enc (write_bitstring sig (n * 8)))
        ∙ ap (λ (l : ℕ). enc (write_bitstring sig (l * 8))) e in
      chk_add-Holds enc (write_bitstring sig (n * 8)) q.csr_size empty []
        (λ a. chk_add oid q.csr_size a info) Drafts m (refl, refl)
        (λ a ha.
          chk_add-Holds enc oid q.csr_size a bits info Drafts m (subst (Holds a) first ha)
            (λ b hb.
              chk_add-Holds enc (write_raw_buffer cri) q.csr_size b (algorithm_der ++ bits) outer
                Drafts m hb
                (λ c hc.
                  sequence-Drafts q.csr_size c (cri ++ (algorithm_der ++ bits)) next m
                    (subst (λ xs. Holds c (xs ++ (algorithm_der ++ bits))) (raw cri) hc) k)
                (λ s. gives_up s m))
            (λ s. gives_up s m))
        (λ s. gives_up s m)

  sign_request-Drafts :
      (cri : List ℕ) (m : Draft)
      → cri ≡ info_der enc m.subject m.spki
      → Wp (drafting enc) (sign_request q cri) Drafts m
  unfolding sign_request csr_cleanup
  sign_request-Drafts cri m e =
      Wp-success enc (sha256_ret cri) _ _ Drafts m
        (λ h _.
          let m' : Draft = record m { hashed = cri; digest = take 32 h.bytes } in
          Wp-success enc (init asym (asymmetric_context key_pair q.algorithm mode_sign)) _ _ Drafts
            m'
            (λ _ _.
              Wp-success enc (sign_digest (take 32 h.bytes) q.sig_room) _ _ Drafts m'
                (λ s w _ _.
                  let sig = take s.len s.bytes in
                  let n = ==_eq s.len (length s.bytes) w in
                  let whole : sig ≡ s.bytes = rw n (take-length s.bytes) in
                  let m'' : Draft = record m' { signed = take 32 h.bytes; signature = s.bytes } in
                  assemble-Drafts sig s.len cri (write_files q) m'' (n ∙ ap length (sym whole)) (
                    write_files-Drafts (request_der enc cri algorithm_der sig) m''
                      (e, refl, ap (request_der enc cri algorithm_der) whole)))
                (λ r f _ _ _ _ bad. cc))
            (λ r f _ _ _ _ bad. cc))
        (λ _ _ _ _ _ _ bad. cc)

  -- Every run of `csr` drafts the request that is meant, or fails.
  pub csr-Drafts : (m : Draft) → Wp (drafting enc) (csr q) Drafts m
  unfolding csr csr_cleanup
  csr-Drafts m =
      Wp-success enc (init key_pair object) _ _ Drafts m
        (λ _ _.
          Wp-success enc (get_handle key_pair q.key_id) _ _ Drafts m
            (λ _ _.
              Wp-success enc (get_key key_pair q.spki_room) _ _ Drafts m
                (λ k w.
                  let whole : take k.len k.bytes ≡ k.bytes =
                    rw (==_eq k.len (length k.bytes) w) (take-length k.bytes) in
                  request_info-Drafts q.cri_size (take k.len k.bytes) (sign_request q)
                    (record m { spki = k.bytes })
                    (λ subject.
                      sign_request-Drafts (info_der enc subject (take k.len k.bytes))
                        (record m { spki = k.bytes; subject = subject })
                        (ap (info_der enc subject) whole)))
                (λ r f _ _ _ _ bad. cc))
            (λ r f _ _ _ _ bad. cc))
        (λ r f _ _ _ _ bad. cc)

  -- Against libraries whose writers write the bytes `enc`, where what `write_raw_buffer` writes is the
  -- bytes that it is given, and whose successful calls report the length of what they wrote: if `csr`
  -- returns success, then what it hashed is the SEQUENCE of version 0, of the subject that was written,
  -- of the whole public key that was read and of an empty set of attributes, each length right; what
  -- it signed is that hash; and what it encoded as PEM is the SEQUENCE of what it hashed, of the
  -- algorithm of the request, and of the whole signature as a bit string of 8 bits a byte.
  pub csr-Certifies :
      (d : Device Call Reply) (st : d.State) (m : Draft)
      → all_honest (drafting enc) m (run d (csr q) st).log ≡ true
      → ((run d (csr q) st).value == success) ≡ true
      → Certifies enc algorithm_der (after (drafting enc) m (run d (csr q) st).log)
  csr-Certifies d st m h ok = Wp-run (drafting enc) d (csr q) Drafts m st (csr-Drafts m) h ok
