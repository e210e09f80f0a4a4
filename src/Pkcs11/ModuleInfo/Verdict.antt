-- ===== src/Pkcs11/ModuleInfo/Verdict.antt =====
-- The return code of `run_module_info`, from the replies alone.
use se05x.Base.{
  ℕ, ◌≡◌, refl, true, false, List, [], ◌∷◌, ◌==◌, take, ltb, if◌then◌else◌, Option, none, some,
  String,
}
use se05x.Prog.{Device, run}
use se05x.Prog.Hoare.{Wp-if}
use se05x.Pkcs11.Cryptoki.{
  Call, Reply, Demo, fill, get_info, get_slot_list, get_mechanism_list, find_objects_init,
  get_object_class,
}
use se05x.Pkcs11.Protocol.Rules.{code}
use se05x.Pkcs11.Verdict.{any_fatal, judge}
use se05x.Pkcs11.Verdict.Rules.{Judges, Judges-run, Judges-hard, Judges-soft}
use se05x.Pkcs11.ModuleInfo.{
  known, find_name, print_name, mechanism_loop, slot_round, slot_loop, object_loop, enumerate,
  run_module_info,
}

print_name-Judges :
    (name : Option String) (after : Demo ℕ)
    → Judges false after false
    → Judges false (print_name name after) false
unfolding print_name
print_name-Judges none after h = h
print_name-Judges (some name) after h = λ _ _. h

mechanism_loop-Judges :
    (mechs : List ℕ) (after : Demo ℕ)
    → Judges false after false
    → Judges false (mechanism_loop mechs after) false
unfolding mechanism_loop
mechanism_loop-Judges [] after h = h
mechanism_loop-Judges (m ∷ mechs) after h =
    print_name-Judges (find_name m known) _ (mechanism_loop-Judges mechs after h)

slot_loop-Judges :
    (slots : List ℕ) (after : Demo ℕ)
    → Judges false after false
    → Judges false (slot_loop slots after) false
unfolding slot_loop slot_round
slot_loop-Judges [] after h = h
slot_loop-Judges (slot ∷ slots) after h = λ _ _ _ _.
    let next = slot_loop-Judges slots after h in
    Judges-soft false false _ _ (get_mechanism_list slot none) refl
      (λ r.
        Wp-if (judge false) (ltb 0 r.len) _ _ _ _
          (λ _.
            Judges-soft false false _ _
              (get_mechanism_list slot (some (if ltb r.len 128 then r.len else 128))) refl
              (λ m. mechanism_loop-Judges (take m.len (fill [] m)) _ next) (λ m. next))
          (λ _. next))
      (λ r. next)

object_loop-Judges : (s : ℕ) (handles : List ℕ) → Judges false (object_loop s handles) false
unfolding object_loop
object_loop-Judges s [] = refl
object_loop-Judges s (h ∷ handles) =
    Judges-soft false false _ _ (get_object_class s h) refl (λ r _ _. object_loop-Judges s handles)
      (λ r _ _. object_loop-Judges s handles)

enumerate-Judges : (s : ℕ) → Judges false (enumerate s) false
unfolding enumerate
enumerate-Judges s =
    Judges-hard false false _ _ (find_objects_init s) refl
      (λ r _ _ found _ _ _. object_loop-Judges s (take found.len (fill [] found))) (λ r _ _. refl)

run_module_info-Judges : (s : ℕ) → Judges false (run_module_info s) false
unfolding run_module_info
run_module_info-Judges s =
    Judges-hard false false _ _ get_info refl
      (λ _ _ _.
        Judges-hard false false _ _ (get_slot_list false none) refl
          (λ _ _ _.
            Judges-hard false false _ _ (get_slot_list true none) refl
              (λ r _ _.
                Wp-if (judge false) (r.len == 0) _ _ _ _ (λ _. refl)
                  (λ _.
                    Judges-hard false false _ _
                      (get_slot_list true (some (if ltb 8 r.len then 8 else r.len))) refl
                      (λ sl _ _. slot_loop-Judges (take sl.len (fill [] sl)) _ (enumerate-Judges s))
                      (λ _ _ _. refl)))
              (λ _ _ _. refl))
          (λ _ _ _. refl))
      (λ _ _ _. refl)

-- Whatever the library replies, `run_module_info` returns 1 if C_GetInfo, some C_GetSlotList or
-- C_FindObjectsInit failed in its run, and 0 otherwise: the information on a slot, a token, a
-- mechanism or an object may fail.
pub run_module_info_verdict :
    (d : Device Call Reply) (st : d.State) (s : ℕ)
    → (run d (run_module_info s) st).value
      ≡ code (any_fatal false (run d (run_module_info s) st).log)
run_module_info_verdict d st s = Judges-run false d _ st (run_module_info-Judges s)
