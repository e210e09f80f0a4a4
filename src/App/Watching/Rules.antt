-- ===== src/App/Watching/Rules.antt =====
-- The rules of proof for what is left open.
use se05x.Base.{
  ℕ, ◌≡◌, refl, sym, subst, Bool, true, false, not, ◌||◌, ◌&&◌, List, [], ◌∷◌, ◌-◌, length, ◌==◌,
}
use se05x.Prog.{Device, run, ◌>>◌}
use se05x.Prog.Hoare.{Wp, Wp-bind, Wp-if, Wp-run, after, all_honest}
use se05x.App.Sss.{
  Call, Reply, Sss, obj, object, init, get_handle, is_success, on_success, asn1_write, Write,
  success,
}
use se05x.App.Keys.{erase_key_if_exists}
use se05x.App.Csr.{Written, chk_add}
use se05x.App.Watching.{Open, Contexts, contexts, amid, effect, has, close}

honest-contexts : (m : Contexts) (t : List (Call × Reply)) → all_honest contexts m t ≡ true
honest-contexts m [] = refl
honest-contexts m ((c, r) ∷ t) = honest-contexts (effect m c (is_success r) r) t

-- From the rules to runs.
pub Wp-every_run :
    {A : Type 0} (d : Device Call Reply) (p : Sss A) (post : A → Contexts → Type 0) (m : Contexts)
    (st : d.State)
    → Wp contexts p post m
    → post (run d p st).value (after contexts m (run d p st).log)
Wp-every_run d p post m st h = Wp-run contexts d p post m st h (honest-contexts m (run d p st).log)

pub Wp-on_success :
    {A : Type 0} (c : Call) (x y : Reply → Sss A) (post : A → Contexts → Type 0) (m : Contexts)
    → ((r : Reply) → Wp contexts (x r) post (effect m c true r))
    → ((r : Reply) → is_success r ≡ false → Wp contexts (y r) post (effect m c false r))
    → Wp contexts (on_success c x y) post m
Wp-on_success c x y post m hx hy = λ r _.
    Wp-if contexts (is_success r) (x r) (y r) _ _
      (λ ok. subst (λ b. Wp contexts (x r) post (effect m c b r)) (sym ok) (hx r))
      (λ bad. subst (λ b. Wp contexts (y r) post (effect m c b r)) (sym bad) (hy r bad))

-- What `erase_key_if_exists` opens it closes, whatever fails.
pub Wp-erase_key_if_exists :
    (key_id : ℕ) (q : Sss ℕ) (post : ℕ → Contexts → Type 0) (l : Open) (p : List ℕ)
    → has obj (λ _. true) l ≡ false
    → Wp contexts q post (amid l p)
    → Wp contexts q post (amid (close obj l) p)
    → Wp contexts (erase_key_if_exists key_id >> q) post (amid l p)
unfolding erase_key_if_exists
Wp-erase_key_if_exists key_id q post l p e h0 h1 =
    -- Where `obj` is not in use, `l'` is open.
    let around : Open → Bool → Contexts = λ l' b. record {
      live = l';
      misused = not (not b && true) || false;
      failed = false;
      abandoned = false;
      plain = p;
    } in
    let freed = subst (λ b. Wp contexts q post (around (close obj l) b)) (sym e) h1 in
    let refused = subst (λ b. Wp contexts q post (around l b)) (sym e) h0 in
    Wp-bind contexts (erase_key_if_exists key_id) (λ _. q) post (amid l p)
      (Wp-on_success (init obj object) _ _ _ (amid l p)
        (λ _.
          Wp-on_success (get_handle obj key_id) _ _ _
            (around ((obj, object) ∷ l) (has obj (λ _. true) l)) (λ _ _ _ _ _. freed)
            (λ _ _ _ _. freed))
        (λ _ _. refused))

-- A writer that succeeds changes nothing that the monitor follows.
pub Wp-chk_add :
    (w : Write) (size : ℕ) (b : Written) (next : Written → Sss ℕ) (post : ℕ → Contexts → Type 0)
    (m : Contexts)
    → ((b' : Written) → Wp contexts (next b') post m)
    → ((status : ℕ)
        → (status == success) ≡ false
        → post status (record m { failed = true; abandoned = true }))
    → Wp contexts (chk_add w size b next) post m
unfolding chk_add
Wp-chk_add w size b next post m hn hr =
    Wp-on_success (asn1_write w (size - length b.content)) _ _ post m (λ r. hn _)
      (λ r bad. hr r.status bad)
