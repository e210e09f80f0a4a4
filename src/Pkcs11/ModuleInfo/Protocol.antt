-- ===== src/Pkcs11/ModuleInfo/Protocol.antt =====
-- `run_module_info` under the rules of PKCS#11.
use se05x.Base.{
  ℕ, String, ◌≡◌, refl, subst, true, false, Option, none, some, List, [], ◌∷◌, arith, ltb, ◌==◌,
  take, if◌then◌else◌, ==_refl,
}
use se05x.Prog.Hoare.{Wp-if}
use se05x.Pkcs11.Cryptoki.{
  ok_line, print, Reply, Demo, is_ok, fill, find_objects_init, find_objects, find_objects_final,
  get_object_class, get_mechanism_list, get_slot_list, get_info,
}
use se05x.Pkcs11.Protocol.{idle, Monitor, protocol, effect, step}
use se05x.Pkcs11.Protocol.Rules.{within, Holds, Leaves, Holds-on_ok, session-legal}
use se05x.Pkcs11.ModuleInfo.{
  known, find_name, print_name, mechanism_loop, slot_round, slot_loop, object_loop, enumerate,
  run_module_info,
}

module _ (s : ℕ) (live : List ℕ) where
  abbrev here : Monitor
  here = within s live idle false

  print_name-Leaves :
      (name : Option String) (after : Demo ℕ)
      → Holds after (Leaves s live) here
      → Holds (print_name name after) (Leaves s live) here
  unfolding print_name
  print_name-Leaves none after h = h
  print_name-Leaves (some name) after h = λ _ _. h

  mechanism_loop-Leaves :
      (mechs : List ℕ) (after : Demo ℕ)
      → Holds after (Leaves s live) here
      → Holds (mechanism_loop mechs after) (Leaves s live) here
  unfolding mechanism_loop
  mechanism_loop-Leaves [] after h = h
  mechanism_loop-Leaves (m ∷ mechs) after h =
      print_name-Leaves (find_name m known) _ (mechanism_loop-Leaves mechs after h)

  slot_round-Leaves :
      (slot : ℕ) (after : Demo ℕ)
      → Holds after (Leaves s live) here
      → Holds (slot_round slot after) (Leaves s live) here
  unfolding slot_round
  slot_round-Leaves slot after h = λ _ _ _ _.
      Holds-on_ok (get_mechanism_list slot none) _ _ _ here refl
        (λ r _ _.
          Wp-if protocol (ltb 0 r.len) _ _ _ _
            (λ _.
              Holds-on_ok (get_mechanism_list slot (some (if ltb r.len 128 then r.len else 128))) _
                _ _ here refl (λ m _ _. mechanism_loop-Leaves (take m.len (fill [] m)) after h)
                (λ m _ _. h))
            (λ _. h))
        (λ r _ _. h)

  slot_loop-Leaves :
      (slots : List ℕ) (after : Demo ℕ)
      → Holds after (Leaves s live) here
      → Holds (slot_loop slots after) (Leaves s live) here
  unfolding slot_loop
  slot_loop-Leaves [] after h = h
  slot_loop-Leaves (slot ∷ slots) after h =
      slot_round-Leaves slot _ (slot_loop-Leaves slots after h)

  object_loop-Leaves : (handles : List ℕ) → Holds (object_loop s handles) (Leaves s live) here
  unfolding object_loop
  object_loop-Leaves [] = (false, refl, refl)
  object_loop-Leaves (h ∷ handles) =
      Holds-on_ok (get_object_class s h) _ _ _ here (==_refl s)
        (λ r _ _ _ _. object_loop-Leaves handles) (λ r _ _ _ _. object_loop-Leaves handles)

  -- A search that began is over after its final call.
  searched :
      (r p found fin : Reply)
      → is_ok r ≡ true
      → here
        ≡ step
            (step
              (step (effect here (find_objects_init s) r) (print ok_line) p)
              (find_objects s 64)
              found)
            (find_objects_final s)
            fin
  searched r p found fin ok = ground (arith, ==_refl s)

  enumerate-Leaves : Holds (enumerate s) (Leaves s live) here
  unfolding enumerate
  enumerate-Leaves =
      Holds-on_ok (find_objects_init s) _ _ _ here (session-legal s true refl)
        (λ r _ ok p _ found _ fin _.
          subst (λ m. Holds (object_loop s (take found.len (fill [] found))) (Leaves s live) m)
            (searched r p found fin ok) (object_loop-Leaves (take found.len (fill [] found))))
        (λ r _ bad _ _. (true, refl, ground arith))

pub run_module_info-Leaves :
    (s : ℕ) (live : List ℕ) → Holds (run_module_info s) (Leaves s live) (within s live idle false)
unfolding run_module_info
run_module_info-Leaves s live =
    Holds-on_ok get_info _ _ _ _ refl
      (λ _ _ _ _ _.
        Holds-on_ok (get_slot_list false none) _ _ _ _ refl
          (λ _ _ _ _ _.
            Holds-on_ok (get_slot_list true none) _ _ _ _ refl
              (λ r _ _ _ _.
                Wp-if protocol (r.len == 0) _ _ _ _ (λ _. (false, refl, refl))
                  (λ _.
                    Holds-on_ok (get_slot_list true (some (if ltb 8 r.len then 8 else r.len))) _ _ _
                      _ refl
                      (λ sl _ _ _ _.
                        slot_loop-Leaves s live (take sl.len (fill [] sl)) _
                          (enumerate-Leaves s live))
                      (λ _ _ _ _ _. (true, refl, refl))))
              (λ _ _ _ _ _. (true, refl, refl)))
          (λ _ _ _ _ _. (true, refl, refl)))
      (λ _ _ _ _ _. (true, refl, refl))
