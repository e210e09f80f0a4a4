-- ===== src/Pkcs11/Protocol/Rules/Operations.antt =====
-- The rules for the calls of an operation: it goes from idle to active and back.
use se05x.Base.{ℕ, ◌≡◌, refl, subst, Bool, true, false, List, arith, ltb, length}
use se05x.Pkcs11.Cryptoki.{
  Mechanism, Operation, digesting, signing, verifying, encrypting, decrypting, op_init, op_data,
  op_verify, Reply, Demo, is_ok, on_ok,
}
use se05x.Pkcs11.Protocol.{
  idle, active, Monitor, effect, is_honest, is_key, output_bound, fits, same_operation,
}
use se05x.Pkcs11.Protocol.Rules.State.{within, Holds, Holds-on_ok, session-legal}

-- An operation goes from `idle` to active and back.
begun :
    (s : ℕ) (live : List ℕ) (o : Operation) (mech : Mechanism) (key : ℕ) (f : Bool) (r : Reply)
    → is_ok r ≡ true
    → within s live (active o mech) f ≡ effect (within s live idle f) (op_init o s mech key) r
begun s live o mech key f r e = ground arith

not_begun :
    (s : ℕ) (live : List ℕ) (o : Operation) (mech : Mechanism) (key : ℕ) (f : Bool) (r : Reply)
    → is_ok r ≡ false
    → within s live idle f ≡ effect (within s live idle f) (op_init o s mech key) r
not_begun s live o mech key f r e = ground arith

same_operation_refl : (o : Operation) → same_operation o o ≡ true
same_operation_refl digesting = refl
same_operation_refl signing = refl
same_operation_refl verifying = refl
same_operation_refl encrypting = refl
same_operation_refl decrypting = refl

ended :
    (s : ℕ) (live : List ℕ) (o : Operation) (mech : Mechanism) (input : List ℕ) (n : ℕ) (f : Bool)
    (r : Reply)
    → ltb n (output_bound mech (length input)) ≡ false
    → is_honest (within s live (active o mech) f) (op_data o s input n) r ≡ true
    → (fits n r ≡ true)
      × (within s live idle f ≡ effect (within s live (active o mech) f) (op_data o s input n) r)
ended s live o mech input n f r room g = ground arith

module _ {A : Type 0} (s : ℕ) (live : List ℕ) (f : Bool) (x y : Reply → Demo A)
    (post : A → Monitor → Type 0) (o : Operation) (mech : Mechanism) where
  pub Holds-op_init :
      (key : ℕ)
      → is_key o key live ≡ true
      → ((r : Reply) → Holds (y r) post (within s live (active o mech) f))
      → ((r : Reply) → Holds (x r) post (within s live idle f))
      → Holds (on_ok (op_init o s mech key) x y) post (within s live idle f)
  Holds-op_init key known hy hx =
      Holds-on_ok (op_init o s mech key) x y post (within s live idle f) (session-legal s _ known)
        (λ r g e. subst (λ m. Holds (y r) post m) (begun s live o mech key f r e) (hy r))
        (λ r g e. subst (λ m. Holds (x r) post m) (not_begun s live o mech key f r e) (hx r))

  -- The room has to be large enough for any output.
  pub Holds-op_data :
      (input : List ℕ) (n : ℕ)
      → ltb n (output_bound mech (length input)) ≡ false
      → ((r : Reply)
          → (is_ok r ≡ true)
          → (fits n r ≡ true)
          → Holds (y r) post (within s live idle f))
      → ((r : Reply) → Holds (x r) post (within s live idle f))
      → Holds (on_ok (op_data o s input n) x y) post (within s live (active o mech) f)
  Holds-op_data input n room hy hx =
      Holds-on_ok (op_data o s input n) x y post (within s live (active o mech) f)
        (session-legal s _ (same_operation_refl o))
        (λ r g e.
          let (fit, m) = ended s live o mech input n f r room g in
          subst (λ m. Holds (y r) post m) m (hy r e fit))
        (λ r g e. subst (λ m. Holds (x r) post m) (ended s live o mech input n f r room g).1 (hx r))

  pub Holds-op_verify :
      (message signature : List ℕ)
      → o ≡ verifying
      → ((r : Reply) → Holds (y r) post (within s live idle f))
      → ((r : Reply) → Holds (x r) post (within s live idle f))
      → Holds (on_ok (op_verify s message signature) x y) post (within s live (active o mech) f)
  Holds-op_verify message signature kind hy hx =
      Holds-on_ok (op_verify s message signature) x y post (within s live (active o mech) f)
        (session-legal s _ (rw kind)) (λ r g e. hy r) (λ r g e. hx r)
