-- ===== src/Prog/Hoare.antt =====
-- Proofs about every run of a program. A monitor follows the calls and their replies; `Wp` says that
-- whatever the library replies, as long as the replies are honest, the postcondition holds.
use se05x.Base.{◌≡◌, refl, Bool, true, false, ◌&&◌, List, [], ◌∷◌, if◌then◌else◌, &&-left, &&-right}
use se05x.Prog.{Prog, ret, act, ◌>>=◌, Device, run}

-- A monitor: its step, and the test that the library keeps its documented behaviour.
pub record Watch (C R M : Type 0) : Type 0 where
  pub step : M → C → R → M
  pub honest : M → C → R → Bool

module _ {C R M : Type 0} (w : Watch C R M) where
  -- The state of the monitor after a log.
  abbrev pub after : M → List (C × R) → M
  after m [] = m
  after m ((c, r) ∷ t) = after (w.step m c r) t

  -- Every reply of a log keeps the documented behaviour.
  abbrev pub all_honest : M → List (C × R) → Bool
  all_honest m [] = true
  all_honest m ((c, r) ∷ t) = w.honest m c r && all_honest (w.step m c r) t

  abbrev pub Wp : {A : Type 0} → Prog C R A → (A → M → Type 0) → M → Type 0
  Wp (ret a) post m = post a m
  Wp (act c k) post m = (r : R) → w.honest m c r ≡ true → Wp (k r) post (w.step m c r)

  pub Wp-bind :
      {A B : Type 0} (p : Prog C R A) (f : A → Prog C R B) (post : B → M → Type 0) (m : M)
      → Wp p (λ a m'. Wp (f a) post m') m
      → Wp (p >>= f) post m
  Wp-bind (ret a) f post m h = h
  Wp-bind (act c k) f post m h = λ r g. Wp-bind (k r) f post (w.step m c r) (h r g)

  pub Wp-mono :
      {A : Type 0} (p : Prog C R A) (post post' : A → M → Type 0) (m : M)
      → ((a : A) (m' : M) → post a m' → post' a m')
      → Wp p post m
      → Wp p post' m
  Wp-mono (ret a) post post' m weaken h = weaken a m h
  Wp-mono (act c k) post post' m weaken h =
      λ r g. Wp-mono (k r) post post' (w.step m c r) weaken (h r g)

  pub Wp-if :
      {A : Type 0} (b : Bool) (p q : Prog C R A) (post : A → M → Type 0) (m : M)
      → (b ≡ true → Wp p post m)
      → (b ≡ false → Wp q post m)
      → Wp (if b then p else q) post m
  Wp-if true p q post m hp hq = hp refl
  Wp-if false p q post m hp hq = hq refl

  -- A run against a library whose replies were honest ends in the postcondition.
  pub Wp-run :
      {A : Type 0} (d : Device C R) (p : Prog C R A) (post : A → M → Type 0) (m : M) (s : d.State)
      → Wp p post m
      → all_honest m (run d p s).log ≡ true
      → post (run d p s).value (after m (run d p s).log)
  unfolding run
  Wp-run d (ret a) post m s h g = h
  Wp-run d (act c k) post m s h g =
      let (r, s') = d.answer s c in
      Wp-run d (k r) post (w.step m c r) s' (h r (&&-left _ _ g)) (&&-right _ _ g)
