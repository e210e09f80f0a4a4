-- ===== src/Pkcs11/ModuleInfo.antt =====
-- demo_module_info.c: library, slot, token and mechanism information, and the objects of the
-- session. The lines that print a field of an information structure are left out.
pub mod Protocol
pub mod Slots
pub mod Verdict
use se05x.Base.{
  ℕ, String, true, false, Option, none, some, List, [], ◌∷◌, ltb, ◌==◌, if◌then◌else◌, take, get_or,
}
use se05x.Prog.{ret, ◌>>=◌, ◌>>◌, call}
use se05x.Pkcs11.Cryptoki.{
  mechanism_line, class_line, get_info, get_slot_list, get_slot_info, get_token_info,
  get_mechanism_list, find_objects_init, find_objects, find_objects_final, get_object_class, Demo,
  fill, say, on_ok, ck_check,
}

-- kKnown, with the values that PKCS#11 v2.40 gives to the constants.
abbrev pub known : List (ℕ × String)
known =
    (0x0000, "CKM_RSA_PKCS_KEY_PAIR_GEN")
    ∷ (0x0001, "CKM_RSA_PKCS")
    ∷ (0x0040, "CKM_SHA256_RSA_PKCS")
    ∷ (0x0043, "CKM_SHA256_RSA_PKCS_PSS")
    ∷ (0x0009, "CKM_RSA_PKCS_OAEP")
    ∷ (0x1040, "CKM_EC_KEY_PAIR_GEN")
    ∷ (0x1041, "CKM_ECDSA")
    ∷ (0x1044, "CKM_ECDSA_SHA256")
    ∷ (0x1050, "CKM_ECDH1_DERIVE")
    ∷ (0x1080, "CKM_AES_KEY_GEN")
    ∷ (0x1081, "CKM_AES_ECB")
    ∷ (0x1082, "CKM_AES_CBC")
    ∷ (0x0251, "CKM_SHA256_HMAC")
    ∷ (0x0250, "CKM_SHA256")
    ∷ (0x0350, "CKM_GENERIC_SECRET_KEY_GEN")
    ∷ []

-- The inner loop: the first row with the identifier.
pub find_name : ℕ → List (ℕ × String) → Option String
find_name mech [] = none
find_name mech ((key, name) ∷ rest) = if key == mech then some name else find_name mech rest

print_name : Option String → (after : Demo ℕ) → Demo ℕ
print_name none after = after
print_name (some name) after = say (mechanism_line name) >> after

-- The loop over mechBuf, and the code after it.
pub mechanism_loop : List ℕ → (after : Demo ℕ) → Demo ℕ
unfolding find_name print_name
mechanism_loop [] after = after
mechanism_loop (m ∷ mechs) after = print_name (find_name m known) (mechanism_loop mechs after)

-- One round over the slots. A failure of any of these calls is passed over.
pub slot_round : (slot : ℕ) (after : Demo ℕ) → Demo ℕ
slot_round slot after =
    call (get_slot_info slot)
    >> call (get_token_info slot)
    >> on_ok (get_mechanism_list slot none) (λ r. after)
        λ r.
          if ltb 0 r.len
          then (on_ok (get_mechanism_list slot (some (if ltb r.len 128 then r.len else 128)))
              (λ m. after) (λ m. mechanism_loop (take m.len (fill [] m)) after))
          else after

pub slot_loop : List ℕ → (after : Demo ℕ) → Demo ℕ
slot_loop [] after = after
slot_loop (slot ∷ slots) after = slot_round slot (slot_loop slots after)

-- The switch on CKO_DATA, CKO_CERTIFICATE, CKO_PUBLIC_KEY, CKO_PRIVATE_KEY and CKO_SECRET_KEY.
abbrev pub class_name : ℕ → String
class_name cls =
    if cls == 2
    then "PUBLIC_KEY"
    else (if cls == 3
        then "PRIVATE_KEY"
        else (if cls == 4
            then "SECRET_KEY"
            else (if cls == 1 then "CERTIFICATE" else (if cls == 0 then "DATA" else "other"))))

pub object_loop : (session : ℕ) → (handles : List ℕ) → Demo ℕ
object_loop session [] = ret 0
object_loop session (h ∷ handles) =
    on_ok (get_object_class session h)
      (λ r. say (class_line "unknown") >> object_loop session handles)
      (λ r.
        say (class_line (class_name (get_or (fill (0 ∷ []) r) 0 0))) >> object_loop session handles)

-- The objects of the session; the results of the search calls are not looked at.
pub enumerate : (session : ℕ) → Demo ℕ
enumerate session =
    ck_check (find_objects_init session) (λ r. ret 1)
      λ r. call (find_objects session 64) >>= λ found.
        call (find_objects_final session) >> object_loop session (take found.len (fill [] found))

unfoldable pub run_module_info : (session : ℕ) → Demo ℕ
unfolding mechanism_loop slot_round slot_loop object_loop enumerate
run_module_info session =
    ck_check get_info (λ r. ret 1)
      λ r.
        ck_check (get_slot_list false none) (λ r. ret 1)
          λ r.
            ck_check (get_slot_list true none) (λ r. ret 1)
              λ r.
                if r.len == 0
                then ret 0
                else (ck_check (get_slot_list true (some (if ltb 8 r.len then 8 else r.len)))
                    (λ s. ret 1) (λ s. slot_loop (take s.len (fill [] s)) (enumerate session)))
