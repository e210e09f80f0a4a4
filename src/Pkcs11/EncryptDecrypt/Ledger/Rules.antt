-- ===== src/Pkcs11/EncryptDecrypt/Ledger/Rules.antt =====
-- The ledger of `run_encrypt_decrypt`, which keeps what was encrypted last and compares it with what
-- is decrypted, and the rules for it.
use se05x.Base.{
  ℕ, ◌≡◌, refl, sym, subst, Bool, true, not, ◌&&◌, ◌||◌, List, [], ◌∷◌, ◌++◌, arith, ◌==◌,
  if◌then◌else◌, bytes_eq, ==_eq, Bool-cases, inl, inr, take, length, take-append, take-length,
}
use se05x.Prog.{◌>>=◌}
use se05x.Prog.Hoare.{Watch, Wp, Wp-bind, Wp-if}
use se05x.Pkcs11.Cryptoki.{
  ck_invalid_handle, encrypting, decrypting, Call, generate_key, op_init, op_data, Reply, Demo,
  is_ok, on_ok, destroy,
}
use se05x.Pkcs11.Protocol.{fits}
use se05x.Pkcs11.Protocol.Rules.{code}
use se05x.Pkcs11.Verdict.{is_required}

pub record Ledger : Type 0 where
  pub plaintext : List ℕ
  pub failed : Bool

abbrev pub entry : List ℕ → Bool → Ledger
entry p f = record { plaintext = p; failed = f }

-- A failure: of the AES key generation, of an EncryptInit other than OAEP's, of any other step of a
-- round trip, or a decryption that does not give the plaintext back.
abbrev pub enter : Ledger → Call → Reply → Ledger
enter m (generate_key s mech tmpl) r = entry m.plaintext (not (is_ok r) || m.failed)
enter m (op_init encrypting s mech key) r =
    entry m.plaintext ((is_required mech && not (is_ok r)) || m.failed)
enter m (op_init decrypting s mech key) r = entry m.plaintext (not (is_ok r) || m.failed)
enter m (op_data encrypting s input room) r = entry input (not (is_ok r) || m.failed)
enter m (op_data decrypting s input room) r =
    entry m.plaintext (not (is_ok r && bytes_eq r.bytes m.plaintext) || m.failed)
enter m _ r = m

-- A data call reports the length of what it wrote.
abbrev pub reports : Ledger → Call → Reply → Bool
reports m (op_data o s input room) r = fits room r
reports m _ r = true

abbrev pub ledger : Watch Call Reply Ledger
ledger = record { step = enter; honest = reports }

abbrev pub Books : Demo ℕ → Ledger → Type 0
Books p m = Wp ledger p (λ rc m'. rc ≡ code m'.failed) m

bytes_eq-length : (xs ys : List ℕ) → bytes_eq xs ys ≡ true → length xs ≡ length ys
bytes_eq-length [] [] h = refl
bytes_eq-length [] (y ∷ ys) h = ground arith
bytes_eq-length (x ∷ xs) [] h = ground arith
bytes_eq-length (x ∷ xs) (y ∷ ys) h = ground (arith, bytes_eq-length xs ys)

-- `memcmp` over the length that was reported compares what was written.
pub compares :
    (bytes rest want : List ℕ) (n : ℕ)
    → n ≡ length bytes
    → (n == length want && bytes_eq (take n (bytes ++ rest)) (take n want)) ≡ bytes_eq bytes want
compares bytes rest want n e = elim (Bool-cases (n == length want)) [
  | inl same ↦
      let written : take n (bytes ++ rest) ≡ bytes = rw e (take-append bytes rest) in
      let whole : take n want ≡ want = rw (==_eq n (length want) same) (take-length want) in
      ground (arith, written, whole)
  | inr other ↦ ground (arith, bytes_eq-length bytes want)
]

-- The same where the compared length is a constant.
pub compares_all :
    (bytes rest want : List ℕ) (n : ℕ)
    → n ≡ length bytes
    → (n == length want && bytes_eq (take (length want) (bytes ++ rest)) want) ≡ bytes_eq bytes want
compares_all bytes rest want n e = elim (Bool-cases (n == length want)) [
  | inl same ↦
      let written : take (length want) (bytes ++ rest) ≡ bytes =
        rw (← ==_eq n (length want) same, e) (take-append bytes rest) in
      ground (arith, written)
  | inr other ↦ ground (arith, bytes_eq-length bytes want)
]

reported : (room : ℕ) (r : Reply) → is_ok r ≡ true → fits room r ≡ true → r.len ≡ length r.bytes
reported room r ok h = ground arith

module _ (pt : List ℕ) (f : Bool) (x y : Reply → Demo ℕ) where
  pub Books-hard :
      (c : Call)
      → ((r : Reply) → enter (entry pt f) c r ≡ entry pt (not (is_ok r) || f))
      → ((r : Reply) → Books (y r) (entry pt f))
      → ((r : Reply) → Books (x r) (entry pt true))
      → Books (on_ok c x y) (entry pt f)
  Books-hard c hard hy hx = λ r _.
      Wp-if ledger (is_ok r) (y r) (x r) _ _
        (λ ok. subst (Books (y r)) (sym (rw (hard r, ok))) (hy r))
        (λ bad. subst (Books (x r)) (sym (rw (hard r, bad))) (hx r))

  -- The mechanism of the round trip is required, or else its refusal is passed over.
  pub Books-soft :
      (c : Call)
      → ((r : Reply) → enter (entry pt f) c r ≡ entry pt f)
      → ((r : Reply) → Books (y r) (entry pt f))
      → ((r : Reply) → Books (x r) (entry pt f))
      → Books (on_ok c x y) (entry pt f)
  Books-soft c soft hy hx = λ r _.
      Wp-if ledger (is_ok r) (y r) (x r) _ _ (λ ok. subst (Books (y r)) (sym (soft r)) (hy r))
        (λ bad. subst (Books (x r)) (sym (soft r)) (hx r))

  pub Books-encrypt :
      (s : ℕ) (input : List ℕ) (room : ℕ)
      → ((r : Reply) → Books (y r) (entry input f))
      → ((r : Reply) → Books (x r) (entry input true))
      → Books (on_ok (op_data encrypting s input room) x y) (entry pt f)
  Books-encrypt s input room hy hx = λ r _.
      Wp-if ledger (is_ok r) (y r) (x r) _ _ (λ ok. subst (Books (y r)) (sym (rw ok)) (hy r))
        (λ bad. subst (Books (x r)) (sym (rw bad)) (hx r))

  -- A decryption that succeeds is followed by the comparison.
  pub Books-decrypt :
      (s : ℕ) (input : List ℕ) (room : ℕ)
      → ((r : Reply)
          → r.len ≡ length r.bytes
          → Books (y r) (entry pt (not (bytes_eq r.bytes pt) || f)))
      → ((r : Reply) → Books (x r) (entry pt true))
      → Books (on_ok (op_data decrypting s input room) x y) (entry pt f)
  Books-decrypt s input room hy hx = λ r g.
      Wp-if ledger (is_ok r) (y r) (x r) _ _
        (λ ok. subst (Books (y r)) (sym (rw ok)) (hy r (reported room r ok g)))
        (λ bad. subst (Books (x r)) (sym (rw bad)) (hx r))

pub Books-destroy :
    (m : Ledger) (s h : ℕ) (k : ℕ → Demo ℕ)
    → ((v : ℕ) → Books (k v) m)
    → Books (destroy s h >>= k) m
unfolding destroy
Books-destroy m s h k hk =
    Wp-bind ledger (destroy s h) k _ m
      (Wp-if ledger (h == ck_invalid_handle) _ _ _ _ (λ _. hk h) (λ _ _ _. hk ck_invalid_handle))

-- The comparison of a block agrees with the ledger.
pub Books-compare :
    (pt : List ℕ) (f test : Bool) (bytes : List ℕ) (p q : Demo ℕ)
    → test ≡ bytes_eq bytes pt
    → Books p (entry pt f)
    → Books q (entry pt true)
    → Books (if test then p else q) (entry pt (not (bytes_eq bytes pt) || f))
Books-compare pt f test bytes p q same hp hq =
    Wp-if ledger test p q _ _ (λ yes'. subst (Books p) (ground arith) hp)
      (λ no'. subst (Books q) (ground arith) hq)
