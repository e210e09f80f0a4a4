-- ===== src/Pkcs11/ModuleInfo/Slots.antt =====
-- `run_module_info` where more than eight slots hold a token.
use se05x.Base.{
  ℕ, ◌<◌, ◌≡◌, refl, Bool, true, false, ◌&&◌, none, some, arith, ltb, ◌==◌, if◌then◌else◌, &&-right,
}
use se05x.Prog.{Device, run}
use se05x.Prog.Hoare.{Watch, Wp, Wp-if, Wp-run, all_honest}
use se05x.Pkcs11.Cryptoki.{
  Call, Reply, Demo, is_ok, get_info, get_slot_list, ckr_buffer_too_small, on_ok,
}
use se05x.Pkcs11.ModuleInfo.{run_module_info}

-- C_GetSlotList as documented, with `n` slots that hold a token: the number without a buffer, and
-- CKR_BUFFER_TOO_SMALL with a buffer for fewer.
abbrev pub lists_slots : ℕ → Call → Reply → Bool
lists_slots n (get_slot_list true none) r = is_ok r && r.len == n
lists_slots n (get_slot_list true (some room)) r =
    if ltb room n then r.rv == ckr_buffer_too_small else true
lists_slots n _ r = true

abbrev pub crowded : ℕ → Watch Call Reply (Unit {0})
crowded n = record { step = λ m c r. tt; honest = λ m c r. lists_slots n c r }

-- The second call, with room for eight at most, is refused.
refused :
    (n : ℕ) (r s : Reply)
    → 8 < n
    → (r.len == n) ≡ true
    → lists_slots n (get_slot_list true (some (if ltb 8 r.len then 8 else r.len))) s ≡ true
    → is_ok s ≡ false
refused n r s many e h = ground arith

none_listed :
    (n : ℕ) (r : Reply)
    → 8 < n
    → lists_slots n (get_slot_list true none) r ≡ true
    → (r.len == 0) ≡ false
none_listed n r many h = ground arith

contradiction :
    (n : ℕ) (r s : Reply)
    → 8 < n
    → lists_slots n (get_slot_list true none) r ≡ true
    → lists_slots n (get_slot_list true (some (if ltb 8 r.len then 8 else r.len))) s ≡ true
    → ¬ (is_ok s ≡ true)
contradiction n r s many g h ok = cc (refused n r s many (&&-right (is_ok r) (r.len == n) g) h)

-- The value 1 at every exit that is left.
abbrev Fails : ℕ → Demo ℕ → Type 0
Fails n p = Wp (crowded n) p (λ rc _. rc ≡ 1) tt

-- A step that gives up if it fails.
Fails-on_ok :
    (n : ℕ) (c : Call) (x y : Reply → Demo ℕ)
    → ((r : Reply) → lists_slots n c r ≡ true → Fails n (y r))
    → ((r : Reply) → Fails n (x r))
    → Fails n (on_ok c x y)
Fails-on_ok n c x y hy hx = λ r g. Wp-if (crowded n) (is_ok r) _ _ _ _ (λ _. hy r g) (λ _. hx r)

run_module_info-Fails : (n : ℕ) (s : ℕ) → 8 < n → Fails n (run_module_info s)
unfolding run_module_info
run_module_info-Fails n s many =
    Fails-on_ok n get_info _ _
      (λ _ _ _ _.
        Fails-on_ok n (get_slot_list false none) _ _
          (λ _ _ _ _.
            Fails-on_ok n (get_slot_list true none) _ _
              (λ r g _ _.
                Wp-if (crowded n) (r.len == 0) _ _ _ _ (λ zero. cc (none_listed n r many g))
                  (λ _ v h.
                    Wp-if (crowded n) (is_ok v) _ _ _ _
                      (λ ok. absurd (contradiction n r v many g h ok)) (λ _ _ _. refl)))
              (λ _ _ _. refl))
          (λ _ _ _. refl))
      (λ _ _ _. refl)

-- Where more than eight slots hold a token, and C_GetSlotList behaves as documented, `run_module_info`
-- returns 1: it asks for at most eight slots, which the library answers by CKR_BUFFER_TOO_SMALL.
pub run_module_info_many_slots :
    (d : Device Call Reply) (st : d.State) (s n : ℕ)
    → 8 < n
    → all_honest (crowded n) tt (run d (run_module_info s) st).log ≡ true
    → (run d (run_module_info s) st).value ≡ 1
run_module_info_many_slots d st s n many =
    Wp-run (crowded n) d (run_module_info s) _ tt st (run_module_info-Fails n s many)
