-- ===== src/Pkcs11/Protocol/Rules/Objects.antt =====
-- The rules for the calls that create an object or read one, and for the release of an object.
use se05x.Base.{
  ℕ, ◌≡◌, refl, sym, subst, Bool, true, false, ◌&&◌, List, ◌∷◌, arith, ◌==◌, if◌then◌else◌, ==_refl,
  ==_eq, member,
}
use se05x.Prog.{◌>>=◌}
use se05x.Prog.Hoare.{Wp-bind, Wp-if, Wp-mono}
use se05x.Pkcs11.Cryptoki.{
  ck_invalid_handle, Mechanism, Attribute, AttributeType, generate_random, generate_key,
  generate_key_pair, create_object, derive_key, destroy_object, get_attribute_value, Reply, Demo,
  is_ok, handle_of, handle2_of, on_ok, destroy,
}
use se05x.Pkcs11.Protocol.{Active, idle, Monitor, step, protocol, creates, creates2}
use se05x.Pkcs11.Protocol.Rules.State.{within, push, Holds, Leaves, Holds-on_ok, session-legal}

-- What an honest creation leaves among the live objects.
created :
    (s : ℕ) (live : List ℕ) (a : Active) (f : Bool) (r : Reply)
    → creates r ≡ true
    → within s (push (handle_of r) live) a f
      ≡ (if is_ok r then within s (handle_of r ∷ live) a f else within s live a f)
created s live a f r h = ground arith

created-valid :
    (r : Reply) → creates r ≡ true → is_ok r ≡ true → (handle_of r == ck_invalid_handle) ≡ false
created-valid r h e = ground arith

created-invalid :
    (r : Reply) → creates r ≡ true → is_ok r ≡ false → (handle_of r == ck_invalid_handle) ≡ true
created-invalid r h e = ground arith

created2 :
    (s : ℕ) (live : List ℕ) (a : Active) (f : Bool) (r : Reply)
    → (creates r && creates2 r) ≡ true
    → within s (push (handle2_of r) (push (handle_of r) live)) a f
      ≡ (if is_ok r then within s (handle2_of r ∷ handle_of r ∷ live) a f else within s live a f)
created2 s live a f r h = ground arith

created2-valid :
    (r : Reply)
    → (creates r && creates2 r) ≡ true
    → is_ok r ≡ true
    → ((handle_of r == ck_invalid_handle) ≡ false) × ((handle2_of r == ck_invalid_handle) ≡ false)
created2-valid r h e = ground arith

created2-invalid :
    (r : Reply)
    → (creates r && creates2 r) ≡ true
    → is_ok r ≡ false
    → ((handle_of r == ck_invalid_handle) ≡ true) × ((handle2_of r == ck_invalid_handle) ≡ true)
created2-invalid r h e = ground arith

-- A handle that was never written is not among the live ones.
pub push-invalid : (h : ℕ) (live : List ℕ) → (h == ck_invalid_handle) ≡ true → push h live ≡ live
push-invalid h live e = rw e

pub push-invalid2 :
    (g h : ℕ) (live : List ℕ)
    → (g == ck_invalid_handle) ≡ true
    → (h == ck_invalid_handle) ≡ true
    → push g (push h live) ≡ live
push-invalid2 g h live e e' = ground arith

-- A valid handle is live below any other.
pub member-push :
    (h : ℕ) (live : List ℕ) → (h == ck_invalid_handle) ≡ false → member h (push h live) ≡ true
member-push h live e = ground (arith, ==_refl h)

pub member-push_below :
    (h g : ℕ) (live : List ℕ) → member h live ≡ true → member h (push g live) ≡ true
member-push_below h g live e = ground arith

module _ {A : Type 0} (s : ℕ) (live : List ℕ) (a : Active) (f : Bool) (x y : Reply → Demo A)
    (post : A → Monitor → Type 0) where
  pub Holds-create_object :
      (tmpl : List Attribute)
      → ((r : Reply)
          → (handle_of r == ck_invalid_handle) ≡ false
          → Holds (y r) post (within s (push (handle_of r) live) a f))
      → ((r : Reply)
          → (handle_of r == ck_invalid_handle) ≡ true
          → Holds (x r) post (within s (push (handle_of r) live) a f))
      → Holds (on_ok (create_object s tmpl) x y) post (within s live a f)
  Holds-create_object tmpl hy hx =
      Holds-on_ok (create_object s tmpl) x y post (within s live a f) (==_refl s)
        (λ r g e.
          subst (λ m. Holds (y r) post m) (created s live a f r g) (hy r (created-valid r g e)))
        (λ r g e.
          subst (λ m. Holds (x r) post m) (created s live a f r g) (hx r (created-invalid r g e)))

  pub Holds-generate_key :
      (mech : Mechanism) (tmpl : List Attribute)
      → ((r : Reply)
          → (handle_of r == ck_invalid_handle) ≡ false
          → Holds (y r) post (within s (push (handle_of r) live) a f))
      → ((r : Reply)
          → (handle_of r == ck_invalid_handle) ≡ true
          → Holds (x r) post (within s (push (handle_of r) live) a f))
      → Holds (on_ok (generate_key s mech tmpl) x y) post (within s live a f)
  Holds-generate_key mech tmpl hy hx =
      Holds-on_ok (generate_key s mech tmpl) x y post (within s live a f) (==_refl s)
        (λ r g e.
          subst (λ m. Holds (y r) post m) (created s live a f r g) (hy r (created-valid r g e)))
        (λ r g e.
          subst (λ m. Holds (x r) post m) (created s live a f r g) (hx r (created-invalid r g e)))

  pub Holds-derive_key :
      (mech : Mechanism) (base : ℕ) (tmpl : List Attribute)
      → member base live ≡ true
      → ((r : Reply)
          → (handle_of r == ck_invalid_handle) ≡ false
          → Holds (y r) post (within s (push (handle_of r) live) a f))
      → ((r : Reply)
          → (handle_of r == ck_invalid_handle) ≡ true
          → Holds (x r) post (within s (push (handle_of r) live) a f))
      → Holds (on_ok (derive_key s mech base tmpl) x y) post (within s live a f)
  Holds-derive_key mech base tmpl key hy hx =
      Holds-on_ok (derive_key s mech base tmpl) x y post (within s live a f) (session-legal s _ key)
        (λ r g e.
          subst (λ m. Holds (y r) post m) (created s live a f r g) (hy r (created-valid r g e)))
        (λ r g e.
          subst (λ m. Holds (x r) post m) (created s live a f r g) (hx r (created-invalid r g e)))

  -- The private key, which is destroyed first, lies on top.
  pub Holds-generate_key_pair :
      (mech : Mechanism) (pub_tmpl priv_tmpl : List Attribute)
      → ((r : Reply)
          → (handle_of r == ck_invalid_handle) ≡ false
          → (handle2_of r == ck_invalid_handle) ≡ false
          → Holds (y r) post (within s (push (handle2_of r) (push (handle_of r) live)) a f))
      → ((r : Reply)
          → (handle_of r == ck_invalid_handle) ≡ true
          → (handle2_of r == ck_invalid_handle) ≡ true
          → Holds (x r) post (within s (push (handle2_of r) (push (handle_of r) live)) a f))
      → Holds (on_ok (generate_key_pair s mech pub_tmpl priv_tmpl) x y) post (within s live a f)
  Holds-generate_key_pair mech pub_tmpl priv_tmpl hy hx =
      Holds-on_ok (generate_key_pair s mech pub_tmpl priv_tmpl) x y post (within s live a f)
        (==_refl s)
        (λ r g e.
          let (h, h2) = created2-valid r g e in
          subst (λ m. Holds (y r) post m) (created2 s live a f r g) (hy r h h2))
        (λ r g e.
          let (h, h2) = created2-invalid r g e in
          subst (λ m. Holds (x r) post m) (created2 s live a f r g) (hx r h h2))

  pub Holds-generate_random :
      (n : ℕ)
      → ((r : Reply) → Holds (y r) post (within s live a f))
      → ((r : Reply) → Holds (x r) post (within s live a f))
      → Holds (on_ok (generate_random s n) x y) post (within s live a f)
  Holds-generate_random n hy hx =
      Holds-on_ok (generate_random s n) x y post (within s live a f) (==_refl s) (λ r g e. hy r)
        (λ r g e. hx r)

  pub Holds-get_attribute_value :
      (h : ℕ) (t : AttributeType) (n : ℕ)
      → member h live ≡ true
      → ((r : Reply) → Holds (y r) post (within s live a f))
      → ((r : Reply) → Holds (x r) post (within s live a f))
      → Holds (on_ok (get_attribute_value s h t n) x y) post (within s live a f)
  Holds-get_attribute_value h t n known hy hx =
      Holds-on_ok (get_attribute_value s h t n) x y post (within s live a f)
        (session-legal s _ known) (λ r g e. hy r) (λ r g e. hx r)

-- The object on top is released, if there is one.
released :
    (s h : ℕ) (live : List ℕ) (a : Active) (f : Bool) (r : Reply)
    → (h == ck_invalid_handle) ≡ false
    → within s live a f ≡ step (within s (push h live) a f) (destroy_object s h) r
released s h live a f r e = ground (arith, ==_refl s, ==_refl h)

Holds-destroy_self :
    (s h : ℕ) (live : List ℕ) (a : Active) (f : Bool)
    → Holds
        (destroy s h)
        (λ v m. (v ≡ ck_invalid_handle) × (m ≡ within s live a f))
        (within s (push h live) a f)
unfolding destroy
Holds-destroy_self s h live a f =
    Wp-if protocol (h == ck_invalid_handle) _ _ _ _ (λ invalid. (==_eq h _ invalid, rw invalid))
      (λ valid r g. (refl, sym (released s h live a f r valid)))

pub Holds-destroy :
    {A : Type 0} (s h : ℕ) (live : List ℕ) (a : Active) (f : Bool) (k : ℕ → Demo A)
    (post : A → Monitor → Type 0)
    → Holds (k ck_invalid_handle) post (within s live a f)
    → Holds (destroy s h >>= k) post (within s (push h live) a f)
Holds-destroy s h live a f k post next =
    Wp-bind protocol (destroy s h) k post (within s (push h live) a f) (
      Wp-mono protocol (destroy s h) _ _ _
        (λ v m (e, em).
          subst (λ u. Holds (k u) post m) (sym e)
            (subst (λ n. Holds (k ck_invalid_handle) post n) (sym em) next))
        (Holds-destroy_self s h live a f))

-- A demo that gives up before its object exists leaves nothing.
pub Leaves-invalid :
    (s h : ℕ) (live : List ℕ)
    → (h == ck_invalid_handle) ≡ true
    → Leaves s live 1 (within s (push h live) idle true)
Leaves-invalid s h live e = (true, refl, rw e)
