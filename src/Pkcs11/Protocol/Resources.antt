-- ===== src/Pkcs11/Protocol/Resources.antt =====
-- What the library holds for the caller, by its own replies: a release that it refuses releases
-- nothing, and a resource is released by its own call only. What is held is what the caller still
-- counts on and what was refused.
use se05x.Base.{
  ℕ, ◌+◌, ◌-◌, ◌≡◌, refl, sym, ap, ◌∙◌, Bool, true, false, List, [], ◌∷◌, arith, ◌==◌,
  if◌then◌else◌, member, remove, &&-right, Bool-cases, inl, inr,
}
use se05x.Prog.Hoare.{after}
use se05x.Pkcs11.Cryptoki.{
  Call, Reply, is_ok, handle_of, handle2_of, initialize, finalize, open_session, close_session,
  generate_key, generate_key_pair, create_object, derive_key, destroy_object, find_objects_init,
  find_objects_final,
}
use se05x.Pkcs11.Protocol.{
  Monitor, Phase, ready, opened, Active, searching, in_session, is_legal, effect, step, protocol,
}

-- An object by its handle, a session by its handle, a search, the initialised library.
pub data Resource : Type 0 where
  object session : (handle : ℕ) → Resource
  search library : Resource

abbrev pub bit : Bool → ℕ
bit true = 1
bit false = 0

-- How often a call that succeeds gives the resource.
abbrev pub acquires : Resource → Call → Reply → ℕ
acquires (object h) (generate_key s mech tmpl) r = bit (h == handle_of r)
acquires (object h) (generate_key_pair s mech pub_tmpl priv_tmpl) r =
    bit (h == handle2_of r) + bit (h == handle_of r)
acquires (object h) (create_object s tmpl) r = bit (h == handle_of r)
acquires (object h) (derive_key s mech base tmpl) r = bit (h == handle_of r)
acquires (session s) (open_session slot) r = bit (s == handle_of r)
acquires search (find_objects_init s) r = 1
acquires library initialize r = 1
acquires x c r = 0

-- How often a call asks to release it.
abbrev pub releases : Resource → Call → ℕ
releases (object h) (destroy_object s g) = bit (h == g)
releases (session s) (close_session t) = bit (s == t)
releases search (find_objects_final s) = 1
releases library finalize = 1
releases x c = 0

-- How often the library holds it after a log, if it held it `n` times before.
abbrev pub held : Resource → ℕ → List (Call × Reply) → ℕ
held x n [] = n
held x n ((c, r) ∷ t) = held x (if is_ok r then n + acquires x c r - releases x c else n) t

-- How often its release was refused in a log.
abbrev pub refused : Resource → List (Call × Reply) → ℕ
refused x [] = 0
refused x ((c, r) ∷ t) = (if is_ok r then 0 else releases x c) + refused x t

-- How often the caller counts on it.
abbrev pub in_live : ℕ → List ℕ → ℕ
in_live h [] = 0
in_live h (g ∷ live) = bit (h == g) + in_live h live

abbrev pub in_phase : Resource → Phase → ℕ
in_phase (session s) (opened t) = bit (s == t)
in_phase library ready = 1
in_phase library (opened t) = 1
in_phase x p = 0

abbrev pub in_active : Resource → Active → ℕ
in_active search searching = 1
in_active x a = 0

abbrev pub counted : Resource → Monitor → ℕ
counted (object h) m = in_live h m.live
counted search m = in_active search m.active
counted x m = in_phase x m.phase

in_live-remove :
    (h g : ℕ) (live : List ℕ)
    → member g live ≡ true
    → in_live h live ≡ in_live h (remove g live) + bit (h == g)
in_live-remove h g [] e = cc
in_live-remove h g (x ∷ live) e = ground (arith, in_live-remove h g live)

-- One legal call: what is held stays what is counted on and what was refused.
balance :
    (x : Resource) (m : Monitor) (c : Call) (r : Reply) (k : ℕ)
    → is_legal m c ≡ true
    → (if is_ok r then counted x m + k + acquires x c r - releases x c else counted x m + k)
      ≡ counted x (effect m c r) + (k + (if is_ok r then 0 else releases x c))
balance (object h) m (destroy_object s g) r k e =
    ground (arith, in_live-remove h g m.live (&&-right (in_session m.phase s) _ e))
balance (object h) m _ r k e = ground arith
balance (session s) m _ r k e = ground arith
balance search m _ r k e = ground arith
balance library m _ r k e = ground arith

-- What is broken stays broken.
step_broken : (m : Monitor) (c : Call) (r : Reply) → m.broken ≡ true → (step m c r).broken ≡ true
step_broken m _ r e = ground arith

stays_broken :
    (m : Monitor) (t : List (Call × Reply)) → m.broken ≡ true → (after protocol m t).broken ≡ true
stays_broken m [] e = e
stays_broken m ((c, r) ∷ t) e = stays_broken (step m c r) t (step_broken m c r e)

-- In a log in which no rule is broken, each call is legal.
first_legal :
    (m : Monitor) (c : Call) (r : Reply) (t : List (Call × Reply))
    → (after protocol m ((c, r) ∷ t)).broken ≡ false
    → is_legal m c ≡ true
first_legal m c r t e = elim (Bool-cases (is_legal m c)) [
  | inl legal ↦ legal
  | inr illegal ↦
      let now : (step m c r).broken ≡ true = rw illegal refl in
      let then_ : (after protocol (step m c r) t).broken ≡ true = stays_broken (step m c r) t now in
      cc
]

held_more :
    (x : Resource) (m : Monitor) (t : List (Call × Reply)) (k : ℕ)
    → (after protocol m t).broken ≡ false
    → held x (counted x m + k) t ≡ counted x (after protocol m t) + (k + refused x t)
held_more x m [] k e = omega arith
held_more x m ((c, r) ∷ t) k e =
    let legal = first_legal m c r t e in
    let same : step m c r ≡ effect m c r = rw legal refl in
    let q : ℕ = if is_ok r then 0 else releases x c in
    let rest : held x (counted x (step m c r) + (k + q)) t
        ≡ counted x (after protocol (step m c r) t) + ((k + q) + refused x t) =
      held_more x (step m c r) t (k + q) e in
    let start : (if is_ok r
          then counted x m + k + acquires x c r - releases x c
          else counted x m + k)
        ≡ counted x (step m c r) + (k + q) =
      balance x m c r k legal ∙ ap (λ n. counted x n + (k + q)) (sym same) in
    ap (λ (n : ℕ). held x n t) start ∙ rest ∙ omega arith

-- Of every resource, the library holds at the end of a log what it held at the start, and what it
-- refused to release; it may hold `k` that the caller does not count on.
abbrev pub Releases : Monitor → List (Call × Reply) → Type 0
Releases m t = (x : Resource) (k : ℕ) → held x (counted x m + k) t ≡ counted x m + k + refused x t

-- A log that breaks no rule, and at the end of which the caller counts on what it did at the start.
pub after-Releases :
    (m : Monitor) (t : List (Call × Reply))
    → (after protocol m t).broken ≡ false
    → ((x : Resource) → counted x (after protocol m t) ≡ counted x m)
    → Releases m t
after-Releases m t e same x k = held_more x m t k e ∙ omega (arith, same x)

pub counted-failed :
    (x : Resource) (m : Monitor) (f : Bool) → counted x (record m { failed = f }) ≡ counted x m
counted-failed (object h) m f = refl
counted-failed (session s) m f = refl
counted-failed search m f = refl
counted-failed library m f = refl
