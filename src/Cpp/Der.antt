-- ===== src/Cpp/Der.antt =====
-- What the C++ application drafts when it makes a certification request: App/Der, for calls that are
-- among others, and the rules of proof for it.
pub mod Writing
pub mod Requests
mod Examples
use se05x.Base.{
  ℕ, ◌≡◌, refl, sym, ap, ◌∙◌, subst, ◌+◌, arith, Bool, true, false, String, List, [], ◌∷◌, ◌++◌,
  ◌-◌, ◌==◌, ==_eq, bytes_eq, bytes_eq_eq, &&-left, &&-right, length, take, take-append, drop,
  replicate, if◌then◌else◌,
}
use mathlib.Core.List.{append_assoc}
use se05x.Prog.{Prog, ret, act}
use se05x.Prog.Hoare.{Watch, Wp}
use se05x.App.Sss
use se05x.App.Sss.{
  Reply, Write, write_tag, write_oid, write_algorithm_identifier, asn1_write, is_success,
}
use se05x.App.Csr.{Written}
use se05x.App.Der.{Draft, note, keeps_word, in_sequence}
use se05x.App.Der.Rules.{Holds, length-append, kept}
use se05x.Cpp.Calls.{
  Call, sss, Thrown, crypto_error, Result, ok, throw, Cpp, ◌>>=◌, ◌>>◌, pure, raise, check,
  check_after, vector, resize,
}
use se05x.Cpp.Makes.{Makes, Yields, Yields-last, Makes-pure, Makes-raise, Makes-if, Makes-call}
use se05x.Cpp.Csr.{chk}

abbrev pub observe : Draft → Call → Reply → Draft
observe m (sss c) r = note m c r
observe m _ r = m

module _ (enc : Write → List ℕ) where
  -- The algorithm identifier of a request: for an EC key it has no parameters.
  abbrev pub signed_with : (is_ec : Bool) → List ℕ
  signed_with true = in_sequence enc (enc (write_oid "MBEDTLS_OID_ECDSA_SHA256"))
  signed_with false = enc (write_algorithm_identifier "MBEDTLS_OID_PKCS1_SHA256" true)

  abbrev pub keeps : Call → Reply → Bool
  keeps (sss c) r = if is_success r then keeps_word enc c r else true
  keeps _ r = true

  abbrev pub observing : Watch Call Reply Draft
  observing = record { step = observe; honest = λ m c r. keeps c r }

  -- A reply that is tested, with what it keeps.
  pub tested :
      {A : Type 0} {q : A → Draft → Type 0} {m : Draft} {x : Cpp A} (e : Thrown) (c : Sss.Call)
      (r : Reply)
      → keeps (sss c) r ≡ true
      → (keeps_word enc c r ≡ true → Makes observing x q m)
      → Makes observing (if is_success r then x else raise e) q m
  tested e c r g h =
      Makes-if observing (is_success r) (λ s. h (kept enc c r s g)) (λ _. Makes-raise observing)

  -- A writer puts its bytes in front, and their number is counted.
  pub chk-Grows :
      {m : Draft} (w : Write) (size : ℕ) (b : Written)
      → Yields observing
          (chk w size b)
          (λ c. (c.content ≡ enc w ++ b.content) × (c.len ≡ b.len + length (enc w)))
          m
  unfolding chk
  chk-Grows w size b =
      let c = asn1_write w (size - length b.content) in
      Makes-call observing (sss c) _ (λ r g. tested _ c r g (λ k.
        let same = bytes_eq_eq r.bytes (enc w) (&&-left _ _ k) in
        let long = ==_eq r.len (length r.bytes) (&&-right _ _ k) in
        Makes-pure observing
          (refl, (ap (λ xs. xs ++ b.content) same, ap (λ n. b.len + n) (long ∙ ap length same)))))

  pub chk-Yields :
      {m : Draft} (w : Write) (size : ℕ) (b : Written) (xs : List ℕ)
      → Holds b xs
      → Yields observing (chk w size b) (λ c. Holds c (enc w ++ xs)) m
  chk-Yields w size b xs h = Yields-last observing (chk-Grows w size b) (λ c e.
      (refl, (e.0 ∙ ap (λ l. enc w ++ l) h.0, omega (arith, e.1, h.1, length-append (enc w) xs))))
