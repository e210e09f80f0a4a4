-- ===== src/Pkcs11/Suite/Protocol.antt =====
-- `main` under the rules of PKCS#11.
use se05x.Base.{
  ℕ, ◌≡◌, refl, sym, subst, Bool, true, false, ◌||◌, ◌⊎◌, inl, inr, none, List, [], ◌∷◌, arith,
  ◌==◌, if◌then◌else◌, get_or, ==_refl,
}
use se05x.Prog.{◌>>=◌, ◌>>◌, ret, call}
use se05x.Prog.Hoare.{Wp-bind, Wp-if, Wp-mono}
use se05x.Pkcs11.Cryptoki.{
  open_library, get_function_list, initialize, get_slot_list, open_session, close_session, Reply,
  Demo, handle_of, fill, is_ok,
}
use se05x.Pkcs11.Protocol.{Phase, unloaded, loaded, ready, idle, Monitor, protocol, step, effect}
use se05x.Pkcs11.Protocol.Rules.{within, Holds, code, Leaves, Continues, Holds-on_ok}
use se05x.Pkcs11.Protocol.Failed.{Leaves-Adds}
use se05x.Pkcs11.ModuleInfo.Protocol.{run_module_info-Leaves}
use se05x.Pkcs11.RandomGen.Protocol.{run_random_gen-Leaves}
use se05x.Pkcs11.Digest.Protocol.{run_digest-Leaves}
use se05x.Pkcs11.SymKeyGen.Protocol.{run_sym_key_gen-Leaves}
use se05x.Pkcs11.ImportObject.Protocol.{run_import_object-Leaves}
use se05x.Pkcs11.Ecc.Protocol.{run_ecc-Leaves}
use se05x.Pkcs11.Rsa.Protocol.{run_rsa-Leaves}
use se05x.Pkcs11.EcdhDerive.Protocol.{run_ecdh_derive-Leaves}
use se05x.Pkcs11.Hmac.Protocol.{run_hmac-Leaves}
use se05x.Pkcs11.EncryptDecrypt.Protocol.{run_encrypt_decrypt-Leaves}
use se05x.Pkcs11.Suite.{
  demos, settle, run_all, done_label, finalize_label, run_session, use_slot, use_library, main,
}

-- Outside of a session, with nothing left of one.
abbrev pub outside : Phase → Bool → Monitor
outside p f = record { phase = p; live = []; active = idle; broken = false; failed = f }

-- How `main` ends: it counts on no object, session or library any more, no rule was broken, and the
-- exit status is 1, or else 0 with no [FAIL] line printed.
abbrev pub Ends : ℕ → Monitor → Type 0
Ends rc m = (f : Bool) × (m ≡ outside unloaded f) × ((rc ≡ 1) ⊎ ((rc ≡ 0) × (f ≡ false)))

-- All demos keep the rules and leave nothing.
abbrev AllLeave : ℕ → List ℕ → List (ℕ → Demo ℕ) → Type 0
AllLeave s live [] = Unit
AllLeave s live (p ∷ ps) =
    Holds (p s) (Leaves s live) (within s live idle false) × AllLeave s live ps

-- The rest of the loop after a demo, whose own mark is `g`.
settle-Leaves :
    (s : ℕ) (live : List ℕ) (ps : List (ℕ → Demo ℕ)) (g f : Bool)
    → Continues s live (run_all s ps) live
    → Holds
        (settle (code g) (code f) >>= run_all s ps)
        (Leaves s live)
        (within s live idle (g || f))
unfolding settle
settle-Leaves s live ps true f h = λ _ _. h true
settle-Leaves s live ps false f h = h f

run_all-Leaves :
    (s : ℕ) (live : List ℕ) (ps : List (ℕ → Demo ℕ))
    → AllLeave s live ps
    → Continues s live (run_all s ps) live
unfolding run_all
run_all-Leaves s live [] h f = (f, refl, refl)
run_all-Leaves s live (p ∷ ps) h f = Wp-bind protocol (p s) _ _ _ (
    Wp-mono protocol (p s) _ _ _
      (λ r m (g, e, em).
        subst (λ a. Holds (settle a (code f) >>= run_all s ps) (Leaves s live) m) (sym e)
          (subst (Holds (settle (code g) (code f) >>= run_all s ps) (Leaves s live)) (sym em)
            (settle-Leaves s live ps g f (run_all-Leaves s live ps h.1))))
      (Leaves-Adds (p s) s live f h.0))

demos-AllLeave : (s : ℕ) (live : List ℕ) → AllLeave s live demos
demos-AllLeave s live = (
  run_module_info-Leaves s live,
  (
    run_random_gen-Leaves s live,
    (
      run_digest-Leaves s live,
      (
        run_sym_key_gen-Leaves s live,
        (
          run_import_object-Leaves s live,
          (
            run_ecc-Leaves s live,
            (
              run_rsa-Leaves s live,
              (
                run_ecdh_derive-Leaves s live,
                (run_hmac-Leaves s live, (run_encrypt_decrypt-Leaves s live, tt)),
              ),
            ),
          ),
        ),
      ),
    ),
  ),
)

closed :
    (s : ℕ) (f : Bool) (r : Reply) → step (within s [] idle f) (close_session s) r ≡ outside ready f
closed s f r = ground (arith, ==_refl s)

code-Ends : (f : Bool) → (code f ≡ 1) ⊎ ((code f ≡ 0) × (f ≡ false))
code-Ends true = inl refl
code-Ends false = inr (refl, refl)

finalize_label-Ends :
    (rc : ℕ) (f : Bool)
    → (rc ≡ 1) ⊎ ((rc ≡ 0) × (f ≡ false))
    → Holds (finalize_label rc) Ends (outside ready f)
unfolding finalize_label
finalize_label-Ends rc f h = λ _ _ _ _. (f, refl, h)

-- The end of the session, once the demos have run.
end_session :
    (s : ℕ) (rc : ℕ) (m : Monitor)
    → Leaves s [] rc m
    → Holds (call (close_session s) >> finalize_label rc) Ends m
end_session s rc m (f, e, em) = λ r _.
    subst (λ n. Holds (finalize_label rc) Ends (step n (close_session s) r)) (sym em)
      (subst (Holds (finalize_label rc) Ends) (sym (closed s f r))
        (finalize_label-Ends rc f (rw e (code-Ends f))))

session_opened :
    (slot : ℕ) (r : Reply)
    → is_ok r ≡ true
    → within (handle_of r) [] idle false ≡ effect (outside ready false) (open_session slot) r
session_opened slot r ok = ground arith

session_refused :
    (slot : ℕ) (r : Reply)
    → is_ok r ≡ false
    → outside ready false ≡ effect (outside ready false) (open_session slot) r
session_refused slot r ok = ground arith

run_session-Ends : (slot : ℕ) → Holds (run_session slot demos) Ends (outside ready false)
unfolding run_session
run_session-Ends slot =
    Holds-on_ok (open_session slot) _ _ _ (outside ready false) refl
      (λ r _ ok.
        let s = handle_of r in
        subst (Holds (run_all s demos 0 >>= λ rc. call (close_session s) >> finalize_label rc) Ends)
          (session_opened slot r ok)
          (Wp-bind protocol (run_all s demos 0) _ _ _ (
            Wp-mono protocol (run_all s demos 0) _ _ _ (end_session s)
              (run_all-Leaves s [] demos (demos-AllLeave s []) false))))
      (λ r _ bad.
        subst (Holds (finalize_label 1) Ends) (session_refused slot r bad)
          (finalize_label-Ends 1 false (inl refl)))

use_slot-Ends : (indeterminate : ℕ) → Holds (use_slot indeterminate) Ends (outside ready false)
unfolding use_slot
use_slot-Ends indeterminate =
    Holds-on_ok (get_slot_list true none) _ _ _ (outside ready false) refl
      (λ r _ _.
        Wp-if protocol (r.len == 0) _ _ _ _ (λ _. finalize_label-Ends 1 false (inl refl))
          (λ _ s _. run_session-Ends (get_or (fill [] s) 0 indeterminate)))
      (λ r _ _. finalize_label-Ends 1 false (inl refl))

done_label-Ends : Holds (done_label 1) Ends (outside loaded false)
unfolding done_label
done_label-Ends = λ _ _. (false, refl, inl refl)

-- What the success of C_Initialize, and of dlopen, changes.
initialized :
    (r : Reply)
    → (if is_ok r then outside ready false else outside loaded false)
      ≡ effect (outside loaded false) initialize r
initialized r = ground arith

library_opened :
    (r : Reply)
    → (if is_ok r then outside loaded false else outside unloaded false)
      ≡ effect (outside unloaded false) open_library r
library_opened r = ground arith

use_library-Ends :
    (indeterminate : ℕ) → Holds (use_library indeterminate) Ends (outside loaded false)
unfolding use_library
use_library-Ends indeterminate =
    Holds-on_ok get_function_list _ _ _ (outside loaded false) refl
      (λ _ _ _.
        Holds-on_ok initialize _ _ _ (outside loaded false) refl
          (λ r _ ok.
            subst (Holds (use_slot indeterminate) Ends) (initialized r)
              (rw ok (use_slot-Ends indeterminate)))
          (λ r _ bad. subst (Holds (done_label 1) Ends) (initialized r) (rw bad done_label-Ends)))
      (λ _ _ _. done_label-Ends)

pub main-Ends : (indeterminate : ℕ) → Holds (main indeterminate) Ends (outside unloaded false)
unfolding main
main-Ends indeterminate =
    Holds-on_ok open_library _ _ _ (outside unloaded false) refl
      (λ r _ ok.
        subst (Holds (use_library indeterminate) Ends) (library_opened r)
          (rw ok (use_library-Ends indeterminate)))
      (λ r _ bad. subst (Holds (ret 1) Ends) (library_opened r) (rw bad (false, refl, inl refl)))
