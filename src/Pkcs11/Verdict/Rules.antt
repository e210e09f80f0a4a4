-- ===== src/Pkcs11/Verdict/Rules.antt =====
-- Rules for the return code: one for a call whose failure is an error, one for any other.
use se05x.Base.{
  ℕ, ◌≡◌, refl, sym, subst, Bool, true, false, not, ◌&&◌, ◌||◌, List, [], ◌∷◌, arith, ◌==◌,
}
use se05x.Prog.{Device, run, ◌>>=◌}
use se05x.Prog.Hoare.{Wp, Wp-bind, Wp-if, Wp-run, after, all_honest}
use se05x.Pkcs11.Cryptoki.{ck_invalid_handle, Call, Reply, Demo, is_ok, on_ok, destroy}
use se05x.Pkcs11.Protocol.Rules.{code}
use se05x.Pkcs11.Verdict.{is_fatal, any_fatal, judge}

-- The return code is 1 exactly if some fatal call failed, `m` being whether one did before.
abbrev pub Judges : (strict : Bool) → Demo ℕ → Bool → Type 0
Judges strict p m = Wp (judge strict) p (λ rc m'. rc ≡ code m') m

after-judge :
    (strict : Bool) (m : Bool) (t : List (Call × Reply))
    → after (judge strict) m t ≡ (any_fatal strict t || m)
after-judge strict m [] = refl
after-judge strict m ((c, r) ∷ t) =
    ground (arith, after-judge strict ((is_fatal strict c && not (is_ok r)) || m) t)

honest-judge :
    (strict : Bool) (m : Bool) (t : List (Call × Reply)) → all_honest (judge strict) m t ≡ true
honest-judge strict m [] = refl
honest-judge strict m ((c, r) ∷ t) =
    honest-judge strict ((is_fatal strict c && not (is_ok r)) || m) t

or-false : (b : Bool) → (b || false) ≡ b
or-false true = refl
or-false false = refl

-- From the rules to runs.
pub Judges-run :
    (strict : Bool) (d : Device Call Reply) (p : Demo ℕ) (st : d.State)
    → Judges strict p false
    → (run d p st).value ≡ code (any_fatal strict (run d p st).log)
Judges-run strict d p st h =
    rw (← or-false (any_fatal strict (run d p st).log), ← after-judge strict false)
      (Wp-run (judge strict) d p _ false st h (honest-judge strict false (run d p st).log))

module _ (strict : Bool) (m : Bool) (x y : Reply → Demo ℕ) where
  pub Judges-hard :
      (c : Call)
      → is_fatal strict c ≡ true
      → ((r : Reply) → Judges strict (y r) m)
      → ((r : Reply) → Judges strict (x r) true)
      → Judges strict (on_ok c x y) m
  Judges-hard c fatal hy hx = λ r _.
      Wp-if (judge strict) (is_ok r) (y r) (x r) _ _
        (λ ok. subst (Judges strict (y r)) (sym (rw (fatal, ok))) (hy r))
        (λ bad. subst (Judges strict (x r)) (sym (rw (fatal, bad))) (hx r))

  pub Judges-soft :
      (c : Call)
      → is_fatal strict c ≡ false
      → ((r : Reply) → Judges strict (y r) m)
      → ((r : Reply) → Judges strict (x r) m)
      → Judges strict (on_ok c x y) m
  Judges-soft c soft hy hx = λ r _.
      Wp-if (judge strict) (is_ok r) (y r) (x r) _ _
        (λ ok. subst (Judges strict (y r)) (sym (rw soft)) (hy r))
        (λ bad. subst (Judges strict (x r)) (sym (rw soft)) (hx r))

pub Judges-destroy :
    (strict : Bool) (m : Bool) (s h : ℕ) (k : ℕ → Demo ℕ)
    → ((v : ℕ) → Judges strict (k v) m)
    → Judges strict (destroy s h >>= k) m
unfolding destroy
Judges-destroy strict m s h k hk = Wp-bind (judge strict) (destroy s h) k _ m (
    Wp-if (judge strict) (h == ck_invalid_handle) _ _ _ _ (λ _. hk h)
      (λ _ _ _. hk ck_invalid_handle))
