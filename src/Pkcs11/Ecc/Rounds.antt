-- ===== src/Pkcs11/Ecc/Rounds.antt =====
-- The curves that `run_ecc` tries: each of them, whatever the library replies.
use se05x.Base.{
  ℕ, ◌≡◌, refl, sym, ◌∙◌, Bool, true, false, List, [], ◌∷◌, ◌++◌, map, ◌==◌, take, if◌then◌else◌,
}
use mathlib.Core.List.{append-nil, append_assoc}
use se05x.Prog.{Device, run, ret, call, ◌>>=◌, ◌>>◌}
use se05x.Prog.Hoare.{Watch, Wp, Wp-if, Wp-mono, Wp-run, after, all_honest}
use se05x.Pkcs11.Cryptoki.{
  Attribute, Call, Reply, Demo, ck_invalid_handle, is_ok, fill, handle_of, handle2_of, destroy,
  destroy_object, generate_key_pair,
}
use se05x.Pkcs11.Ecc.{
  Curve, curves, run_ecc, pub_template, ecc_next, ecc_verify, ecc_sign, ecc_round, ecc_loop,
}

-- The templates of the public keys of the pairs that were asked for, in order.
abbrev pub ask : List (List Attribute) → Call → Reply → List (List Attribute)
ask l (generate_key_pair s mech pub_tmpl priv_tmpl) r = l ++ (pub_tmpl ∷ [])
ask l c r = l

abbrev pub asked : Watch Call Reply (List (List Attribute))
asked = record { step = ask; honest = λ l c r. true }

-- From here on the pairs `more` are asked for.
abbrev pub Asks : List (List Attribute) → Demo ℕ → Type 0
Asks more p = (l : List (List Attribute)) → Wp asked p (λ rc m. m ≡ l ++ more) l

-- The same of what follows, with any return code so far.
abbrev Goes : List (List Attribute) → (ℕ → Demo ℕ) → Type 0
Goes more next = (rc : ℕ) → Asks more (next rc)

destroy-Asks :
    (more : List (List Attribute)) (b : Bool) (s h : ℕ) (k : ℕ → Demo ℕ)
    → Goes more k
    → Asks more ((if b then ret h else (call (destroy_object s h) >> ret ck_invalid_handle)) >>= k)
destroy-Asks more true s h k g = g h
destroy-Asks more false s h k g = λ l _ _. g ck_invalid_handle l

module _ (more : List (List Attribute)) where
  ecc_next-Asks : (s p v : ℕ) (rest : ℕ → Demo ℕ) → Goes more rest → Goes more (ecc_next s p v rest)
  unfolding ecc_next destroy
  ecc_next-Asks s p v rest g rc =
      destroy-Asks more (v == ck_invalid_handle) s v _
        λ _. destroy-Asks more (p == ck_invalid_handle) s p _ λ _. g rc

  ecc_verify-Asks :
      (s : ℕ) (c : Curve) (p : ℕ) (sig : List ℕ) (next : ℕ → Demo ℕ)
      → Goes more next
      → Goes more (ecc_verify s c p sig next)
  unfolding ecc_verify
  ecc_verify-Asks s c p sig next g rc = λ l r _.
      Wp-if asked (is_ok r) _ _ _ l
        (λ _ r' _. Wp-if asked (is_ok r') _ _ _ l (λ _ _ _. g rc l) (λ _ _ _. g 1 l))
        (λ _ _ _. g 1 l)

  ecc_sign-Asks :
      (s : ℕ) (c : Curve) (p v : ℕ) (next : ℕ → Demo ℕ)
      → Goes more next
      → Goes more (ecc_sign s c p v next)
  unfolding ecc_sign
  ecc_sign-Asks s c p v next g rc = λ l r _.
      Wp-if asked (is_ok r) _ _ _ l
        (λ _ r' _.
          Wp-if asked (is_ok r') _ _ _ l
            (λ _ _ _. ecc_verify-Asks s c p (take r'.len (fill [] r')) next g rc l)
            (λ _ _ _. g 1 l))
        (λ _ _ _. g rc l)

  ecc_round-Asks :
      (s : ℕ) (c : Curve) (rest : ℕ → Demo ℕ) (rc : ℕ)
      → Goes more rest
      → Asks (pub_template c ∷ more) (ecc_round s c rest rc)
  unfolding ecc_round
  ecc_round-Asks s c rest rc g l = λ r _.
      let now = l ++ (pub_template c ∷ []) in
      let p = handle_of r in
      let v = handle2_of r in
      let sign = ecc_sign s c p v (ecc_next s p v rest) rc in
      let whole = append_assoc l (pub_template c ∷ []) more in
      let signed =
        Wp-mono asked sign _ (λ rc m. m ≡ l ++ (pub_template c ∷ more)) now (λ rc m e. e ∙ whole)
          (ecc_sign-Asks s c p v (ecc_next s p v rest) (ecc_next-Asks s p v rest g) rc now) in
      let skipped =
        Wp-mono asked (rest rc) _ (λ rc m. m ≡ l ++ (pub_template c ∷ more)) now
          (λ rc m e. e ∙ whole) (g rc now) in
      Wp-if asked (is_ok r) _ _ _ now
        (λ _ a _. Wp-if asked (is_ok a) _ _ _ now (λ _ _ _. signed) (λ _. signed))
        (λ _ _ _. skipped)

pub ecc_loop-Asks :
    (s : ℕ) (cs : List Curve) (rc : ℕ) → Asks (map pub_template cs) (ecc_loop s cs rc)
unfolding ecc_loop
ecc_loop-Asks s [] rc l = sym (append-nil l)
ecc_loop-Asks s (c ∷ cs) rc l =
    ecc_round-Asks (map pub_template cs) s c (ecc_loop s cs) rc (ecc_loop-Asks s cs) l

honest-asked : (l : List (List Attribute)) (t : List (Call × Reply)) → all_honest asked l t ≡ true
honest-asked l [] = refl
honest-asked l ((c, r) ∷ t) = honest-asked (ask l c r) t

pub asked_each :
    (d : Device Call Reply) (st : d.State) (s : ℕ)
    → after asked [] (run d (run_ecc s) st).log ≡ map pub_template curves
unfolding run_ecc
asked_each d st s =
    Wp-run asked d (ecc_loop s curves 0) (λ rc m. m ≡ map pub_template curves) [] st
      (ecc_loop-Asks s curves 0 []) (honest-asked [] (run d (ecc_loop s curves 0) st).log)
