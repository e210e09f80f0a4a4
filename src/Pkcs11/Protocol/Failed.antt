-- ===== src/Pkcs11/Protocol/Failed.antt =====
-- The mark that a [FAIL] line was printed changes nothing else: what was proved of a demo that
-- starts with no failure holds after failures too.
use se05x.Base.{ℕ, ◌≡◌, refl, sym, subst, Bool, true, false, ◌||◌, List, arith}
use se05x.Prog.{ret, act}
use se05x.Prog.Hoare.{Wp-mono}
use se05x.Pkcs11.Cryptoki.{Call, print, Reply, Demo}
use se05x.Pkcs11.Protocol.{Monitor, idle, is_legal, is_honest, step, protocol, fails}
use se05x.Pkcs11.Protocol.Rules.{within, Holds, code, Leaves}

abbrev mark : Monitor → Monitor
mark m = record m { failed = true }

legal-mark : (m : Monitor) (c : Call) → is_legal (mark m) c ≡ is_legal m c
legal-mark m (print l) = refl
legal-mark m _ = refl

honest-mark : (m : Monitor) (c : Call) (r : Reply) → is_honest (mark m) c r ≡ is_honest m c r
honest-mark m (print l) r = refl
honest-mark m _ r = refl

or-true : (b : Bool) → (b || true) ≡ true
or-true true = refl
or-true false = refl

step-mark : (m : Monitor) (c : Call) (r : Reply) → step (mark m) c r ≡ mark (step m c r)
step-mark m (print l) r = rw (or-true (fails l))
step-mark m _ r = ground arith

Wp-mark :
    {A : Type 0} (p : Demo A) (post : A → Monitor → Type 0) (m : Monitor)
    → Holds p post m
    → Holds p (λ a m'. (n : Monitor) × post a n × (m' ≡ mark n)) (mark m)
Wp-mark (ret a) post m h = (m, h, refl)
Wp-mark (act c k) post m h = λ r g.
    subst (λ n. Holds (k r) (λ a m'. (n : Monitor) × post a n × (m' ≡ mark n)) n)
      (sym (step-mark m c r)) (Wp-mark (k r) post (step m c r) (h r (rw honest-mark at g)))

-- A demo that starts after `f`: its return code is 1 exactly if it printed a [FAIL] line itself.
abbrev pub Adds : ℕ → List ℕ → Bool → ℕ → Monitor → Type 0
Adds s live f rc m = (g : Bool) × (rc ≡ code g) × (m ≡ within s live idle (g || f))

pub Leaves-Adds :
    (p : Demo ℕ) (s : ℕ) (live : List ℕ) (f : Bool)
    → Holds p (Leaves s live) (within s live idle false)
    → Holds p (Adds s live f) (within s live idle f)
Leaves-Adds p s live true h =
    Wp-mono protocol p _ _ _ (λ rc m (n, (g, e, en), em). (g, e, rw (em, en, or-true g)))
      (Wp-mark p (Leaves s live) (within s live idle false) h)
Leaves-Adds p s live false h =
    Wp-mono protocol p _ _ _ (λ rc m (g, e, em). (g, e, rw em (ground arith))) h
