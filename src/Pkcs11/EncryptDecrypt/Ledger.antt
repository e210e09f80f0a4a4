-- ===== src/Pkcs11/EncryptDecrypt/Ledger.antt =====
-- The return code of `run_encrypt_decrypt`: besides the failing calls, a plaintext that does not come
-- back. The ledger (Rules) keeps what was encrypted last and compares it with what is decrypted.
pub mod Rules
use se05x.Base.{
  ℕ, ◌≡◌, refl, Bool, true, false, ◌&&◌, List, [], ◌==◌, bytes_eq, take, drop, length, replicate,
}
use se05x.Prog.{Device, run}
use se05x.Prog.Hoare.{Wp-run, after, all_honest}
use se05x.Pkcs11.Cryptoki.{
  Mechanism, aes_ecb, aes_cbc, aes_key_gen, rsa_pkcs_key_pair_gen, encrypting, decrypting, Call,
  generate_key, generate_key_pair, op_init, Reply, Demo, handle_of, handle2_of, fill,
}
use se05x.Pkcs11.Protocol.Rules.{code}
use se05x.Pkcs11.Verdict.{is_required}
use se05x.Pkcs11.EncryptDecrypt.{
  plain, plain16, aes_template, pub_template, priv_template, oaep, aes_roundtrip, oaep_done,
  oaep_roundtrip, rsa_oaep, aes_cleanup, oaep_part, cbc_part, run_encrypt_decrypt,
}
use se05x.Pkcs11.EncryptDecrypt.Ledger.Rules.{
  ledger, entry, Books, Books-hard, Books-soft, Books-encrypt, Books-decrypt, Books-destroy,
  Books-compare, compares, compares_all,
}

aes_cleanup-Books :
    (s key : ℕ) (pt : List ℕ) (f : Bool) → Books (aes_cleanup s key (code f)) (entry pt f)
unfolding aes_cleanup
aes_cleanup-Books s key pt f = Books-destroy (entry pt f) s key _ (λ _. refl)

aes_roundtrip-Books :
    (s key : ℕ) (mech : Mechanism) (ct pt before : List ℕ) (next : List ℕ → List ℕ → Demo ℕ)
    → is_required mech ≡ true
    → ((ct pt : List ℕ) → Books (next ct pt) (entry plain16 false))
    → Books (aes_roundtrip s key mech ct pt (aes_cleanup s key) next) (entry before false)
unfolding aes_roundtrip
aes_roundtrip-Books s key mech ct pt before next needed go =
    let stop = λ (b : List ℕ). aes_cleanup-Books s key b true in
    Books-hard before false _ _ (op_init encrypting s mech key) (λ r. rw needed)
      (λ r _ _.
        Books-encrypt before false _ _ s plain16 64
          (λ c _ _ _ _.
            Books-hard plain16 false _ _ (op_init decrypting s mech key) (λ r. refl)
              (λ r _ _.
                Books-decrypt plain16 false _ _ s (take c.len (fill ct c)) 64
                  (λ p reported _ _.
                    Books-compare plain16 false
                      (p.len == 16 && bytes_eq (take p.len (fill pt p)) (take p.len plain16))
                      p.bytes _ _
                      (compares p.bytes (drop (length p.bytes) pt) plain16 p.len reported)
                      (λ _ _. go (fill ct c) (fill pt p)) (λ _ _. stop plain16))
                  (λ p _ _. stop plain16))
              (λ r _ _. stop plain16))
          (λ c _ _. stop plain16))
      (λ r _ _. stop before)

oaep_done-Books :
    (s p v gone : ℕ) (pt : List ℕ) (f : Bool)
    → Books (oaep_done s p v (aes_cleanup s gone) (code f)) (entry pt f)
unfolding oaep_done
oaep_done-Books s p v gone pt f =
    Books-destroy (entry pt f) s v _
      (λ _. Books-destroy (entry pt f) s p _ (λ _. aes_cleanup-Books s gone pt f))

oaep_roundtrip-Books :
    (s p v gone : ℕ) (before : List ℕ)
    → Books (oaep_roundtrip s p v (oaep_done s p v (aes_cleanup s gone))) (entry before false)
unfolding oaep_roundtrip
oaep_roundtrip-Books s p v gone before =
    let stop = λ (b : List ℕ). oaep_done-Books s p v gone b true in
    Books-soft before false _ _ (op_init encrypting s oaep p) (λ r. refl)
      (λ r.
        Books-encrypt before false _ _ s plain 256
          (λ c _ _.
            Books-hard plain false _ _ (op_init decrypting s oaep v) (λ r. refl)
              (λ r.
                Books-decrypt plain false _ _ s (take c.len (fill [] c)) 256
                  (λ q reported.
                    Books-compare plain false (q.len == 32 && bytes_eq (take 32 (fill [] q)) plain)
                      q.bytes _ _
                      (compares_all q.bytes (drop (length q.bytes) []) plain q.len reported)
                      (λ _ _. oaep_done-Books s p v gone plain false) (λ _ _. stop plain))
                  (λ q _ _. stop plain))
              (λ r _ _. stop plain))
          (λ c _ _. stop plain))
      (λ r _ _. oaep_done-Books s p v gone before false)

oaep_part-Books : (s key : ℕ) (pt : List ℕ) → Books (oaep_part s key) (entry pt false)
unfolding oaep_part rsa_oaep
oaep_part-Books s key pt = Books-destroy (entry pt false) s key _ λ gone.
    Books-soft pt false _ _ (generate_key_pair s rsa_pkcs_key_pair_gen pub_template priv_template)
      (λ r. refl) (λ r. oaep_roundtrip-Books s (handle_of r) (handle2_of r) gone pt)
      (λ r _ _. aes_cleanup-Books s gone pt false)

cbc_part-Books : (s key : ℕ) (ct pt : List ℕ) → Books (cbc_part s key ct pt) (entry plain16 false)
unfolding cbc_part
cbc_part-Books s key ct pt =
    aes_roundtrip-Books s key (aes_cbc (replicate 16 0)) ct pt plain16 (λ _ _. oaep_part s key) refl
      (λ _ _. oaep_part-Books s key plain16)

run_encrypt_decrypt-Books : (s : ℕ) → Books (run_encrypt_decrypt s) (entry [] false)
unfolding run_encrypt_decrypt
run_encrypt_decrypt-Books s =
    Books-hard [] false _ _ (generate_key s aes_key_gen aes_template) (λ r. refl)
      (λ r _ _.
        aes_roundtrip-Books s (handle_of r) aes_ecb [] [] [] (cbc_part s (handle_of r)) refl
          (λ ct pt. cbc_part-Books s (handle_of r) ct pt))
      (λ r _ _. aes_cleanup-Books s (handle_of r) [] true)

-- With a library that reports the lengths of what it writes, `run_encrypt_decrypt` returns 1 if in
-- its run the AES key generation, an EncryptInit other than that of OAEP, a C_Encrypt, a C_DecryptInit
-- or a C_Decrypt failed, or a C_Decrypt put out other bytes than were encrypted last; and 0 otherwise.
pub run_encrypt_decrypt_verdict :
    (d : Device Call Reply) (st : d.State) (s : ℕ)
    → all_honest ledger (entry [] false) (run d (run_encrypt_decrypt s) st).log ≡ true
    → (run d (run_encrypt_decrypt s) st).value
      ≡ code (after ledger (entry [] false) (run d (run_encrypt_decrypt s) st).log).failed
run_encrypt_decrypt_verdict d st s =
    Wp-run ledger d (run_encrypt_decrypt s) _ _ st (run_encrypt_decrypt-Books s)
