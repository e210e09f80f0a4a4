-- ===== src/App/Der/Rules.antt =====
-- The rules of proof for what a run drafts.
use se05x.Base.{
  ℕ, ◌≡◌, ap, true, false, List, [], ◌∷◌, ◌++◌, ◌+◌, ◌-◌, ◌==◌, ==_eq, bytes_eq_eq, &&-left,
  &&-right, length, take, take-length, if◌then◌else◌, arith,
}
use se05x.Prog.Hoare.{Wp, Wp-if}
use se05x.App.Sss.{Call, Reply, Write, Sss, asn1_write, on_success, is_success, success}
use se05x.App.Csr.{Written, chk_add}
use se05x.App.Der.{Draft, note, keeps_word, drafting}

-- A buffer holds `xs`, and the length that is kept is right.
abbrev pub Holds : Written → List ℕ → Type 0
Holds b xs = (b.content ≡ xs) × (b.len ≡ length xs)

pub length-append : (xs ys : List ℕ) → length (xs ++ ys) ≡ length xs + length ys
length-append [] ys = omega arith
length-append (x ∷ xs) ys = omega (arith, length-append xs ys)

-- All of it is taken.
pub Holds-take : (b : Written) (xs : List ℕ) → Holds b xs → take b.len b.content ≡ xs
Holds-take b xs h = rw (h.0, h.1) (take-length xs)

-- Bytes put in front of it, by a call that reports their length.
pub Holds-front :
    (b : Written) (xs ys bytes : List ℕ) (n : ℕ)
    → Holds b xs
    → bytes ≡ ys
    → n ≡ length bytes
    → Holds (record { content = bytes ++ b.content; len = b.len + n }) (ys ++ xs)
Holds-front b xs ys bytes n h e l = (rw (e, h.0), omega (arith, ap length e, length-append ys xs))

module _ (enc : Write → List ℕ) where
  -- The word of a reply that succeeded.
  pub kept :
      (c : Call) (r : Reply)
      → is_success r ≡ true
      → (if is_success r then keeps_word enc c r else true) ≡ true
      → keeps_word enc c r ≡ true
  kept c r s h = rw s at h

  pub Wp-success :
      {A : Type 0} (c : Call) (x y : Reply → Sss A) (post : A → Draft → Type 0) (m : Draft)
      → ((r : Reply) → keeps_word enc c r ≡ true → Wp (drafting enc) (x r) post (note m c r))
      → ((r : Reply) → is_success r ≡ false → Wp (drafting enc) (y r) post (note m c r))
      → Wp (drafting enc) (on_success c x y) post m
  Wp-success c x y post m hx hy = λ r g.
      Wp-if (drafting enc) (is_success r) (x r) (y r) post (note m c r) (λ s. hx r (kept c r s g))
        (hy r)

  -- A writer puts its bytes in front.
  pub chk_add-Holds :
      (w : Write) (size : ℕ) (b : Written) (xs : List ℕ) (next : Written → Sss ℕ)
      (post : ℕ → Draft → Type 0) (m : Draft)
      → Holds b xs
      → ((c : Written) → Holds c (enc w ++ xs) → Wp (drafting enc) (next c) post m)
      → ((status : ℕ) → (status == success) ≡ false → post status m)
      → Wp (drafting enc) (chk_add w size b next) post m
  unfolding chk_add
  chk_add-Holds w size b xs next post m h good bad =
      Wp-success (asn1_write w (size - length b.content)) _ _ post m
        (λ r k. good _ (
          Holds-front b xs (enc w) r.bytes r.len h (bytes_eq_eq r.bytes (enc w) (&&-left _ _ k))
            (==_eq r.len (length r.bytes) (&&-right _ _ k))))
        (λ r f. bad r.status f)
