-- ===== src/Pkcs11/Protocol/Rules/State.antt =====
-- The states that a demo runs in: an open session, `within`, and `push`, a handle that may be invalid.
use se05x.Base.{ℕ, ◌≡◌, Bool, true, false, ◌&&◌, List, ◌∷◌, arith, ◌==◌, if◌then◌else◌, ==_refl}
use se05x.Prog.Hoare.{Wp, Wp-if}
use se05x.Pkcs11.Cryptoki.{ck_invalid_handle, Call, Reply, Demo, is_ok, on_ok}
use se05x.Pkcs11.Protocol.{
  Active, idle, opened, Monitor, is_legal, effect, is_honest, step, protocol,
}

abbrev pub within : ℕ → List ℕ → Active → Bool → Monitor
within s live a f = record { phase = opened s; live = live; active = a; broken = false; failed = f }

abbrev pub push : ℕ → List ℕ → List ℕ
push h live = if h == ck_invalid_handle then live else h ∷ live

abbrev pub Holds : {A : Type 0} → Demo A → (A → Monitor → Type 0) → Monitor → Type 0
Holds p post m = Wp protocol p post m

-- The state that a demo leaves: the caller counts on what it did before, nothing is active, and a return code that is
-- 0 or 1 and is 1 exactly if a [FAIL] line was printed.
abbrev pub code : Bool → ℕ
code false = 0
code true = 1

abbrev pub Leaves : ℕ → List ℕ → ℕ → Monitor → Type 0
Leaves s live rc m = (f : Bool) × (rc ≡ code f) × (m ≡ within s live idle f)

-- The code that follows, called with a return code that fits what was printed, leaves `live`.
abbrev pub Continues : ℕ → List ℕ → (ℕ → Demo ℕ) → List ℕ → Type 0
Continues s live next now = (f : Bool) → Holds (next (code f)) (Leaves s live) (within s now idle f)

pub step-legal :
    (m : Monitor) (c : Call) (r : Reply) → is_legal m c ≡ true → step m c r ≡ effect m c r
step-legal m c r h = rw h

-- A legal call, and a branch on its CK_RV.
pub Holds-on_ok :
    {A : Type 0} (c : Call) (x y : Reply → Demo A) (post : A → Monitor → Type 0) (m : Monitor)
    → is_legal m c ≡ true
    → ((r : Reply) → is_honest m c r ≡ true → is_ok r ≡ true → Holds (y r) post (effect m c r))
    → ((r : Reply) → is_honest m c r ≡ true → is_ok r ≡ false → Holds (x r) post (effect m c r))
    → Holds (on_ok c x y) post m
Holds-on_ok c x y post m legal hy hx = λ r g.
    rw legal
      (Wp-if protocol (is_ok r) (y r) (x r) post (effect m c r) (λ e. hy r g e) (λ e. hx r g e))

pub session-legal : (s : ℕ) (b : Bool) → b ≡ true → (s == s && b) ≡ true
session-legal s b h = ground (arith, ==_refl s)
