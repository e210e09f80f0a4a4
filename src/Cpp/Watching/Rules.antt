-- ===== src/Cpp/Watching/Rules.antt =====
-- The rules of proof for the C++ application.
use se05x.Base.{
  ℕ, ◌≡◌, refl, sym, subst, Bool, true, false, String, ◌&&◌, not, arith, List, [], ◌∷◌,
  if◌then◌else◌,
}
use se05x.Prog.{Prog, ret, act, Device, run}
use se05x.Prog.Hoare.{Wp, Wp-if, Wp-run, after, all_honest}
use se05x.App.Sss
use se05x.App.Sss.{Reply, is_success}
use se05x.App.Watching.{Open}
use se05x.Cpp.Calls.{
  Thrown, crypto_error, Call, sss, Result, ok, throw, Cpp, ◌>>=◌, check, check_after, swallow, pure,
  raise,
}
use se05x.Cpp.Watching.{World, world, inside, effect, settled, Stopped, Ends, Does, Runs}

honest-world : (m : World) (t : List (Call × Reply)) → all_honest world m t ≡ true
honest-world m [] = refl
honest-world m ((c, r) ∷ t) = honest-world (effect m c (is_success r)) t

-- From the rules to runs.
pub Wp-every_run :
    {A : Type 0} (d : Device Call Reply) (p : Prog Call Reply A) (post : A → World → Type 0)
    (m : World) (st : d.State)
    → Wp world p post m
    → post (run d p st).value (after world m (run d p st).log)
Wp-every_run d p post m st h = Wp-run world d p post m st h (honest-world m (run d p st).log)

-- A call and a branch on its success.
pub Wp-branch :
    {A : Type 0} (c : Call) (x y : Reply → Prog Call Reply A) (post : A → World → Type 0)
    (m : World)
    → ((r : Reply) → Wp world (x r) post (effect m c true))
    → ((r : Reply) → Wp world (y r) post (effect m c false))
    → Wp world (act c (λ r. if is_success r then x r else y r)) post m
Wp-branch c x y post m hx hy = λ r _.
    Wp-if world (is_success r) (x r) (y r) _ _
      (λ ok'. subst (λ b. Wp world (x r) post (effect m c b)) (sym ok') (hx r))
      (λ bad. subst (λ b. Wp world (y r) post (effect m c b)) (sym bad) (hy r))

Wp-then :
    {A B : Type 0} (p : Cpp A) (f : A → Cpp B) (q' : A → World → Type 0) (q : B → World → Type 0)
    (m : World)
    → Wp world p (Ends q') m
    → ((a : A) (m' : World) → q' a m' → Does (f a) q m')
    → Wp world (p >>= f) (Ends q) m
Wp-then (ret (ok a)) f q' q m h k = (k a m h).every
Wp-then (ret (throw e)) f q' q m h k = h
Wp-then (act c g) f q' q m h k = λ r t. Wp-then (g r) f q' q _ (h r t) k

Wp-swallow :
    {A : Type 0} (p : Cpp A) (q : Unit {0} → World → Type 0) (m : World)
    → Wp world p (λ _. q tt) m
    → Wp world (swallow p) (Ends q) m
Wp-swallow (ret a) q m h = h
Wp-swallow (act c k) q m h = λ r t. Wp-swallow (k r) q _ (h r t)

module _ {A B : Type 0} {p : Cpp A} {f : A → Cpp B} {q : B → World → Type 0} where
  -- A step, and what follows it.
  pub Does-then :
      {q' : A → World → Type 0} {m : World}
      → Does p q' m
      → ((a : A) (m' : World) → q' a m' → Does (f a) q m')
      → Does (p >>= f) q m
  Does-then {q'} {m} h k = record { every = Wp-then p f q' q m h.every k }

  pub Runs-then :
      {m : World} {l' : Open}
      → Does p (λ _ m'. m' ≡ inside l') m
      → ((a : A) → Does (f a) q (inside l'))
      → Does (p >>= f) q m
  Runs-then {m} {l'} h k =
      Does-then {q' = λ _ m. m ≡ inside l'} h (λ a m e. subst (Does (f a) q) (sym e) (k a))

-- The end of a function.
pub Does-pure :
    {A : Type 0} {a : A} {q : A → World → Type 0} {m : World} → q a m → Does (pure a) q m
Does-pure h = record { every = h }

-- A check under any postcondition.
check_then :
    {B : Type 0} (b : Bool) (c : Sss.Call) (e : Thrown) (r : Reply) (f : Reply → Cpp B)
    (post : Result B → World → Type 0) (m : World)
    → Wp world (f r) post (effect m (sss c) true)
    → post (throw e) (effect m (sss c) false)
    → Wp world ((if b then pure r else raise e) >>= f) post (effect m (sss c) b)
check_then true c e r f post m good bad = good
check_then false c e r f post m good bad = bad

pub Wp-check :
    {B : Type 0} (c : Sss.Call) (where_ : String) (f : Reply → Cpp B)
    (post : Result B → World → Type 0) (m : World)
    → ((r : Reply) → Wp world (f r) post (effect m (sss c) true))
    → ((e : Thrown) → post (throw e) (effect m (sss c) false))
    → Wp world (check c where_ >>= f) post m
unfolding check
Wp-check c where_ f post m good bad = λ r _.
    let e = crypto_error where_ [] r.status in
    check_then (is_success r) c e r f post m (good r) (bad e)

-- Given up after a failure.
abbrev pub given_up : World → Bool
given_up m =
    m.session
    && (not m.misused
        && (not m.rejected
            && (not m.refused && (settled m.live m.abandoned m.exhausted && m.failed))))

pub given_up-Stopped : (e : Thrown) (m : World) → given_up m ≡ true → Stopped e m
given_up-Stopped e m h = ground arith

-- A call that the function needs.
pub check-Runs :
    (c : Sss.Call) (where_ : String) (l l' : Open)
    → effect (inside l) (sss c) true ≡ inside l'
    → given_up (effect (inside l) (sss c) false) ≡ true
    → Runs (check c where_) l l'
unfolding check
check-Runs c where_ l l' good bad = record {
  every =
      Wp-branch (sss c) _ _ (Ends (λ _ m. m ≡ inside l')) (inside l) (λ r. good)
        (λ r.
          given_up-Stopped (crypto_error where_ [] r.status) (effect (inside l) (sss c) false) bad);
}

-- The context is released before the status is looked at.
pub check_after-Runs :
    (c : Sss.Call) (context : ℕ) (where_ : String) (l l' : Open)
    → ((b : Bool) → effect (effect (inside l) (sss c) true) (sss (Sss.free context)) b ≡ inside l')
    → ((b : Bool)
        → given_up (effect (effect (inside l) (sss c) false) (sss (Sss.free context)) b) ≡ true)
    → Runs (check_after c context where_) l l'
unfolding check_after
check_after-Runs c context where_ l l' good bad = record {
  every = λ r _ r' _.
      let seen : Bool → World =
        λ b. effect (effect (inside l) (sss c) b) (sss (Sss.free context)) (is_success r') in
      let e = crypto_error where_ [] r.status in
      Wp-if world (is_success r) (pure r) (raise e) (Ends (λ _ m. m ≡ inside l'))
        (seen (is_success r))
        (λ yes'. subst (λ b. seen b ≡ inside l') (sym yes') (good (is_success r')))
        (λ no'.
          subst (λ b. Stopped e (seen b)) (sym no')
            (given_up-Stopped e (seen false) (bad (is_success r'))));
}

-- What was thrown is forgotten.
pub swallow-Does :
    {A : Type 0} (p : Cpp A) {q : Unit {0} → World → Type 0} {m : World}
    → Wp world p (λ _. q tt) m
    → Does (swallow p) q m
swallow-Does p {q} {m} h = record { every = Wp-swallow p q m h }

module _ {A : Type 0} {q : A → World → Type 0} {m : World} where
  pub Does-raise : {e : Thrown} → Stopped e m → Does {A = A} (raise e) q m
  Does-raise h = record { every = h }

  pub Does-if :
      (b : Bool) {x y : Cpp A}
      → (b ≡ true → Does x q m)
      → (b ≡ false → Does y q m)
      → Does (if b then x else y) q m
  Does-if true hx hy = hx refl
  Does-if false hx hy = hy refl

  pub Does-branch :
      (c : Call) (x y : Reply → Cpp A)
      → ((r : Reply) → Does (x r) q (effect m c true))
      → ((r : Reply) → Does (y r) q (effect m c false))
      → Does (act c (λ r. if is_success r then x r else y r)) q m
  Does-branch c x y hx hy = record {
    every = Wp-branch c x y (Ends q) m (λ r. (hx r).every) (λ r. (hy r).every);
  }

  pub Does-call :
      (c : Call) (k : Reply → Cpp A)
      → ((r : Reply) → Does (k r) q (effect m c (is_success r)))
      → Does (act c k) q m
  Does-call c k h = record { every = λ r _. (h r).every }

-- A test of a call that was made before, which has decided the state.
pub Does-test :
    {A : Type 0} {q : A → World → Type 0} {x y : Cpp A} (b : Bool) (s : Bool → World)
    → Does x q (s true)
    → Does y q (s false)
    → Does (if b then x else y) q (s b)
Does-test true s hx hy = hx
Does-test false s hx hy = hy
