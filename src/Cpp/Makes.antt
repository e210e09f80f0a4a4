-- ===== src/Cpp/Makes.antt =====
-- Rules of proof for what the functions of the C++ application make, under any monitor: if nothing was
-- thrown, the value and the state of the monitor are as a predicate says.
use se05x.Base.{
  List, ◌++◌, ◌==◌, ==_eq, length, take-append, drop, replicate, ℕ, ◌≡◌, refl, sym, subst, Bool,
  true, false, String, if◌then◌else◌,
}
use mathlib.Core.List.{append_assoc}
use se05x.Prog.{ret, act}
use se05x.Prog.Hoare.{Watch, Wp}
use se05x.App.Sss
use se05x.App.Sss.{Reply, is_success}
use se05x.Cpp.Calls.{
  Call, sss, Thrown, Result, ok, throw, Cpp, ◌>>=◌, pure, raise, check, check_after, vector,
}

-- The vector is what the call wrote, all of it.
pub vector_whole :
    (room : ℕ) (r : Reply) → (r.len == length r.bytes) ≡ true → vector room r ≡ r.bytes
vector_whole room r w =
    let zeros : List ℕ = drop (length r.bytes) (replicate room 0) in
    let more : List ℕ = replicate (length r.bytes) 0 in
    rw (==_eq r.len (length r.bytes) w, append_assoc r.bytes zeros more)
      (take-append r.bytes (zeros ++ more))

module _ {M : Type 0} (w : Watch Call Reply M) where
  abbrev pub Returns : {A : Type 0} → (A → M → Type 0) → Result A → M → Type 0
  Returns q (ok a) m = q a m
  Returns q (throw e) m = Unit {0}

  pub record Makes {A : Type 0} (p : Cpp A) (q : A → M → Type 0) (m : M) : Type 0 where
    pub every : Wp w p (Returns q) m

  -- The state stays.
  abbrev pub Yields : {A : Type 0} → Cpp A → (A → Type 0) → M → Type 0
  Yields p q m = Makes p (λ a m'. (m' ≡ m) × q a) m

  Wp-then :
      {A B : Type 0} (p : Cpp A) (f : A → Cpp B) (q' : A → M → Type 0) (q : B → M → Type 0) (m : M)
      → Wp w p (Returns q') m
      → ((a : A) (m' : M) → q' a m' → Makes (f a) q m')
      → Wp w (p >>= f) (Returns q) m
  Wp-then (ret (ok a)) f q' q m h k = (k a m h).every
  Wp-then (ret (throw e)) f q' q m h k = tt
  Wp-then (act c g) f q' q m h k = λ r t. Wp-then (g r) f q' q _ (h r t) k

  Wp-weaken :
      {A : Type 0} (p : Cpp A) (q q' : A → M → Type 0) (m : M)
      → ((a : A) (m' : M) → q' a m' → q a m')
      → Wp w p (Returns q') m
      → Wp w p (Returns q) m
  Wp-weaken (ret (ok a)) q q' m h k = h a m k
  Wp-weaken (ret (throw e)) q q' m h k = tt
  Wp-weaken (act c g) q q' m h k = λ r t. Wp-weaken (g r) q q' _ h (k r t)

  module _ {A B : Type 0} {p : Cpp A} {f : A → Cpp B} {q : B → M → Type 0} {m : M} where
    pub Makes-then :
        {q' : A → M → Type 0}
        → Makes p q' m
        → ((a : A) (m' : M) → q' a m' → Makes (f a) q m')
        → Makes (p >>= f) q m
    Makes-then {q'} h k = record { every = Wp-then p f q' q m h.every k }

    pub Yields-then :
        {q' : A → Type 0} → Yields p q' m → ((a : A) → q' a → Makes (f a) q m) → Makes (p >>= f) q m
    Yields-then {q'} h k =
        Makes-then {q' = λ a m'. (m' ≡ m) × q' a} h
          (λ a m' e. subst (Makes (f a) q) (sym e.0) (k a e.1))

  module _ {A : Type 0} {q : A → M → Type 0} {m : M} where
    pub Makes-last :
        {p : Cpp A} {q' : A → M → Type 0}
        → Makes p q' m
        → ((a : A) (m' : M) → q' a m' → q a m')
        → Makes p q m
    Makes-last {p} {q'} h k = record { every = Wp-weaken p q q' m k h.every }

    -- What a step yields is what is wanted.
    pub Yields-last :
        {p : Cpp A} {q' : A → Type 0} → Yields p q' m → ((a : A) → q' a → q a m) → Makes p q m
    Yields-last h k = Makes-last h (λ a m' e. subst (q a) (sym e.0) (k a e.1))

    pub Makes-pure : {a : A} → q a m → Makes (pure a) q m
    Makes-pure h = record { every = h }

    pub Makes-raise : {e : Thrown} → Makes {A = A} (raise e) q m
    Makes-raise = record { every = tt }

    pub Makes-if :
        (b : Bool) {x y : Cpp A}
        → (b ≡ true → Makes x q m)
        → (b ≡ false → Makes y q m)
        → Makes (if b then x else y) q m
    Makes-if true hx hy = hx refl
    Makes-if false hx hy = hy refl

    pub Makes-call :
        (c : Call) (k : Reply → Cpp A)
        → ((r : Reply) → w.honest m c r ≡ true → Makes (k r) q (w.step m c r))
        → Makes (act c k) q m
    Makes-call c k h = record { every = λ r g. (h r g).every }

  module _ {q : Reply → M → Type 0} {m : M} (c : Sss.Call) where
    pub check-Makes :
        (where_ : String)
        → ((r : Reply)
            → w.honest m (sss c) r ≡ true
            → is_success r ≡ true
            → q r (w.step m (sss c) r))
        → Makes (check c where_) q m
    unfolding check
    check-Makes where_ h =
        Makes-call (sss c) _
          (λ r g. Makes-if (is_success r) (λ s. Makes-pure (h r g s)) (λ _. Makes-raise))

    pub check_after-Makes :
        (context : ℕ) (where_ : String)
        → ((r r' : Reply)
            → w.honest m (sss c) r ≡ true
            → is_success r ≡ true
            → q r (w.step (w.step m (sss c) r) (sss (Sss.free context)) r'))
        → Makes (check_after c context where_) q m
    unfolding check_after
    check_after-Makes context where_ h = Makes-call (sss c) _ (λ r g.
        Makes-call (sss (Sss.free context)) _
          (λ r' _. Makes-if (is_success r) (λ s. Makes-pure (h r r' g s)) (λ _. Makes-raise)))

  -- The vector of a call that reported the length of what it wrote.
  pub as_vector :
      {m : M} {q : List ℕ → M → Type 0} (room : ℕ) (r : Reply)
      → (r.len == length r.bytes) ≡ true
      → q r.bytes m
      → Makes (pure (vector room r)) q m
  as_vector {m} {q} room r k h = Makes-pure (subst (λ l. q l m) (sym (vector_whole room r k)) h)

  -- A step after which the state is known.
  pub Makes-step :
      {A B : Type 0} {p : Cpp A} {f : A → Cpp B} {q : B → M → Type 0} {m : M} (g : A → M)
      → Makes p (λ a m'. m' ≡ g a) m
      → ((a : A) → Makes (f a) q (g a))
      → Makes (p >>= f) q m
  Makes-step {f} {q} g h k =
      Makes-then {q' = λ a m'. m' ≡ g a} h (λ a m' e. subst (Makes (f a) q) (sym e) (k a))
