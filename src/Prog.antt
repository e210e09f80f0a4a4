-- ===== src/Prog.antt =====
-- Code that calls an external library: a tree with a node for each call, whose branches are the
-- replies that the library may give. `Device` is the library, which the program does not implement.
pub mod Hoare
use se05x.Base.{◌≡◌, refl, ap, List, [], ◌∷◌, ◌++◌}

pub data Prog (C R A : Type 0) : Type 0 where
  ret : A → Prog C R A
  act : C → (R → Prog C R A) → Prog C R A

module _ {C R : Type 0} where
  infixl 5 ◌>>=◌ ◌>>◌
  abbrev pub ◌>>=◌ : {A B : Type 0} → Prog C R A → (A → Prog C R B) → Prog C R B
  ret a >>= f = f a
  act c k >>= f = act c (λ r. k r >>= f)

  abbrev pub ◌>>◌ : {A B : Type 0} → Prog C R A → Prog C R B → Prog C R B
  m >> n = m >>= λ _. n

  abbrev pub call : C → Prog C R R
  call c = act c ret

-- A library as the program sees it: its state, and the reply to each call.
pub record Device (C R : Type 0) : Type 1 where
  pub State : Type 0
  pub answer : State → C → R × State

-- What a run leaves: the value returned, the calls made with their replies, and the library.
pub record Outcome (C R A S : Type 0) : Type 0 where
  pub value : A
  pub log : List (C × R)
  pub state : S

module _ {C R : Type 0} (d : Device C R) where
  unfoldable pub run : {A : Type 0} → Prog C R A → d.State → Outcome C R A d.State
  run (ret a) s = record { value = a; log = []; state = s }
  run (act c k) s =
      let (r, s') = d.answer s c in
      let rest = run (k r) s' in
      record { value = rest.value; log = (c, r) ∷ rest.log; state = rest.state }

  -- A run, and a run of what follows it where it has left the library.
  abbrev pub followed :
      {A B : Type 0}
      → Outcome C R A d.State
      → (A → d.State → Outcome C R B d.State)
      → Outcome C R B d.State
  followed o f =
      let o' = f o.value o.state in
      record { value = o'.value; log = o.log ++ o'.log; state = o'.state }

  pub run-bind :
      {A B : Type 0} (m : Prog C R A) (f : A → Prog C R B) (s : d.State)
      → run (m >>= f) s ≡ followed (run m s) (λ a s'. run (f a) s')
  unfolding run
  run-bind (ret a) f s = refl
  run-bind (act c k) f s =
      let (r, s') = d.answer s c in
      ap (λ o. record { value = o.value; log = (c, r) ∷ o.log; state = o.state })
        (run-bind (k r) f s')
