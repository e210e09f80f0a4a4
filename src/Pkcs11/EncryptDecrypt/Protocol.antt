-- ===== src/Pkcs11/EncryptDecrypt/Protocol.antt =====
-- `run_encrypt_decrypt` under the rules of PKCS#11.
use se05x.Base.{
  ℕ, zero, suc, ◌≤◌, ◌≡◌, refl, sym, subst, true, false, List, [], ◌∷◌, ◌&&◌, ◌==◌, arith, bytes_eq,
  take, ltb, length, member, replicate,
}
use se05x.Prog.Hoare.{Wp-if}
use se05x.Pkcs11.Cryptoki.{
  ck_invalid_handle, Mechanism, aes_ecb, aes_cbc, aes_key_gen, rsa_pkcs_key_pair_gen, encrypting,
  decrypting, Reply, Demo, is_ok, handle_of, handle2_of, fill,
}
use se05x.Pkcs11.Protocol.{idle, protocol, output_bound, fits}
use se05x.Pkcs11.Protocol.Rules.{
  within, push, Holds, Leaves, Continues, Holds-generate_key, Holds-generate_key_pair,
  Holds-op_init, Holds-op_data, Holds-destroy, member-push, member-push_below, push-invalid2,
}
use se05x.Pkcs11.EncryptDecrypt.{
  plain, plain16, aes_template, pub_template, priv_template, oaep, aes_roundtrip, oaep_done,
  oaep_roundtrip, rsa_oaep, aes_cleanup, oaep_part, cbc_part, run_encrypt_decrypt,
}

length-take-le : (n : ℕ) (xs : List ℕ) → length (take n xs) ≤ n
length-take-le zero xs = omega arith
length-take-le (suc n) [] = omega arith
length-take-le (suc n) (x ∷ xs) = omega (arith, length-take-le n xs)

-- A mechanism whose output is as long as its input.
abbrev Keeps : Mechanism → Type 0
Keeps mech = (n : ℕ) → output_bound mech n ≡ n

-- What was encrypted into 64 bytes is decrypted within 64 bytes.
decrypt_room :
    (mech : Mechanism) (c : Reply) (buf : List ℕ)
    → Keeps mech
    → is_ok c ≡ true
    → fits 64 c ≡ true
    → ltb 64 (output_bound mech (length (take c.len buf))) ≡ false
decrypt_room mech c buf keeps ok fit =
    rw (keeps (length (take c.len buf))) (ground (arith, length-take-le c.len buf))

aes_cleanup-Leaves :
    (s key : ℕ) (live : List ℕ) → Continues s live (aes_cleanup s key) (push key live)
unfolding aes_cleanup
aes_cleanup-Leaves s key live f = Holds-destroy s key live idle f _ _ (f, refl, refl)

aes_roundtrip-Leaves :
    (s key : ℕ) (mech : Mechanism) (ct pt live now : List ℕ) (cleanup : ℕ → Demo ℕ)
    (next : List ℕ → List ℕ → Demo ℕ)
    → Keeps mech
    → member key now ≡ true
    → Continues s live cleanup now
    → ((ct pt : List ℕ) → Holds (next ct pt) (Leaves s live) (within s now idle false))
    → Holds (aes_roundtrip s key mech ct pt cleanup next) (Leaves s live) (within s now idle false)
unfolding aes_roundtrip
aes_roundtrip-Leaves s key mech ct pt live now cleanup next keeps known stop go =
    Holds-op_init s now false _ _ _ encrypting mech key known
      (λ r _ _.
        Holds-op_data s now false _ _ _ encrypting mech plain16 64 (rw (keeps (length plain16)))
          (λ c ok fit _ _ _ _.
            Holds-op_init s now false _ _ _ decrypting mech key known
              (λ r _ _.
                Holds-op_data s now false _ _ _ decrypting mech (take c.len (fill ct c)) 64
                  (decrypt_room mech c (fill ct c) keeps ok fit)
                  (λ p _ _ _ _.
                    Wp-if protocol
                      (p.len == 16 && bytes_eq (take p.len (fill pt p)) (take p.len plain16)) _ _ _
                      _ (λ _ _ _. go (fill ct c) (fill pt p)) (λ _ _ _. stop true))
                  (λ p _ _. stop true))
              (λ r _ _. stop true))
          (λ c _ _. stop true))
      (λ r _ _. stop true)

oaep_done-Leaves :
    (s p v : ℕ) (live : List ℕ) (cleanup : ℕ → Demo ℕ)
    → Continues s live cleanup live
    → Continues s live (oaep_done s p v cleanup) (push v (push p live))
unfolding oaep_done
oaep_done-Leaves s p v live cleanup h f =
    Holds-destroy s v (push p live) idle f _ _ (Holds-destroy s p live idle f _ _ (h f))

oaep_roundtrip-Leaves :
    (s p v : ℕ) (live now : List ℕ) (done : ℕ → Demo ℕ)
    → member p now ≡ true
    → member v now ≡ true
    → Continues s live done now
    → Holds (oaep_roundtrip s p v done) (Leaves s live) (within s now idle false)
unfolding oaep_roundtrip
oaep_roundtrip-Leaves s p v live now done known known' h =
    Holds-op_init s now false _ _ _ encrypting oaep p known
      (λ r.
        Holds-op_data s now false _ _ _ encrypting oaep plain 256 refl
          (λ c _ _ _ _.
            Holds-op_init s now false _ _ _ decrypting oaep v known'
              (λ r.
                Holds-op_data s now false _ _ _ decrypting oaep (take c.len (fill [] c)) 256 refl
                  (λ q _ _.
                    Wp-if protocol (q.len == 32 && bytes_eq (take 32 (fill [] q)) plain) _ _ _ _
                      (λ _ _ _. h false) (λ _ _ _. h true))
                  (λ q _ _. h true))
              (λ r _ _. h true))
          (λ c _ _. h true))
      (λ r _ _. h false)

rsa_oaep-Leaves :
    (s : ℕ) (live : List ℕ) (cleanup : ℕ → Demo ℕ)
    → Continues s live cleanup live
    → Holds (rsa_oaep s cleanup) (Leaves s live) (within s live idle false)
unfolding rsa_oaep
rsa_oaep-Leaves s live cleanup h =
    Holds-generate_key_pair s live idle false _ _ _ rsa_pkcs_key_pair_gen pub_template priv_template
      (λ r valid valid2.
        let p = handle_of r in
        let v = handle2_of r in
        oaep_roundtrip-Leaves s p v live (push v (push p live)) (oaep_done s p v cleanup)
          (member-push_below p v (push p live) (member-push p live valid))
          (member-push v (push p live) valid2) (oaep_done-Leaves s p v live cleanup h))
      (λ r e e2 _ _.
        subst (λ now. Holds (cleanup 0) (Leaves s live) (within s now idle false))
          (sym (push-invalid2 (handle2_of r) (handle_of r) live e2 e)) (h false))

oaep_part-Leaves :
    (s key : ℕ) (live : List ℕ)
    → Holds (oaep_part s key) (Leaves s live) (within s (push key live) idle false)
unfolding oaep_part
oaep_part-Leaves s key live =
    Holds-destroy s key live idle false (λ gone. rsa_oaep s (aes_cleanup s gone)) _
      (rsa_oaep-Leaves s live (aes_cleanup s ck_invalid_handle)
        (aes_cleanup-Leaves s ck_invalid_handle live))

cbc_part-Leaves :
    (s key : ℕ) (live ct pt : List ℕ)
    → (key == ck_invalid_handle) ≡ false
    → Holds (cbc_part s key ct pt) (Leaves s live) (within s (push key live) idle false)
unfolding cbc_part
cbc_part-Leaves s key live ct pt valid =
    aes_roundtrip-Leaves s key (aes_cbc (replicate 16 0)) ct pt live (push key live)
      (aes_cleanup s key) (λ _ _. oaep_part s key) (λ n. refl) (member-push key live valid)
      (aes_cleanup-Leaves s key live) (λ _ _. oaep_part-Leaves s key live)

pub run_encrypt_decrypt-Leaves :
    (s : ℕ) (live : List ℕ)
    → Holds (run_encrypt_decrypt s) (Leaves s live) (within s live idle false)
unfolding run_encrypt_decrypt
run_encrypt_decrypt-Leaves s live =
    Holds-generate_key s live idle false _ _ _ aes_key_gen aes_template
      (λ r valid _ _.
        aes_roundtrip-Leaves s (handle_of r) aes_ecb [] [] live (push (handle_of r) live)
          (aes_cleanup s (handle_of r)) (cbc_part s (handle_of r)) (λ n. refl)
          (member-push (handle_of r) live valid) (aes_cleanup-Leaves s (handle_of r) live)
          (λ ct pt. cbc_part-Leaves s (handle_of r) live ct pt valid))
      (λ r _ _ _. aes_cleanup-Leaves s (handle_of r) live true)
