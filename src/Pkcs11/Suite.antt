-- ===== src/Pkcs11/Suite.antt =====
-- pkcs11_demo.c: the program `main`, which loads the library, opens a session and runs the demos.
pub mod Protocol
pub mod Every
use se05x.Base.{ℕ, true, none, some, List, [], ◌∷◌, ltb, ◌==◌, if◌then◌else◌, get_or}
use se05x.Prog.{ret, ◌>>=◌, ◌>>◌, call}
use se05x.Pkcs11.Cryptoki.{
  demo_failed_line, open_library, get_function_list, initialize, finalize, close_library,
  get_slot_list, open_session, close_session, Demo, handle_of, fill, say, on_ok,
}
use se05x.Pkcs11.ModuleInfo.{run_module_info}
use se05x.Pkcs11.RandomGen.{run_random_gen}
use se05x.Pkcs11.Digest.{run_digest}
use se05x.Pkcs11.SymKeyGen.{run_sym_key_gen}
use se05x.Pkcs11.ImportObject.{run_import_object}
use se05x.Pkcs11.Ecc.{run_ecc}
use se05x.Pkcs11.Rsa.{run_rsa}
use se05x.Pkcs11.EcdhDerive.{run_ecdh_derive}
use se05x.Pkcs11.Hmac.{run_hmac}
use se05x.Pkcs11.EncryptDecrypt.{run_encrypt_decrypt}

abbrev pub demos : List (ℕ → Demo ℕ)
demos =
    run_module_info ∷ run_random_gen ∷ run_digest ∷ run_sym_key_gen ∷ run_import_object ∷ run_ecc
    ∷ run_rsa ∷ run_ecdh_derive ∷ run_hmac ∷ run_encrypt_decrypt ∷ []

-- RUN after the call of the demo: `r` is what it returned.
pub settle : (r rc : ℕ) → Demo ℕ
settle r rc = if r == 0 then ret rc else (say demo_failed_line >> ret 1)

-- RUN of each demo in turn; the value is that of `rc`.
unfoldable pub run_all : (session : ℕ) → List (ℕ → Demo ℕ) → (rc : ℕ) → Demo ℕ
unfolding settle
run_all session [] rc = ret rc
run_all session (demo ∷ rest) rc =
    demo session >>= λ r. settle r rc >>= λ rc. run_all session rest rc

-- The labels `done` and `finalize`.
pub done_label : (rc : ℕ) → Demo ℕ
done_label rc = call close_library >> ret rc

pub finalize_label : (rc : ℕ) → Demo ℕ
unfolding done_label
finalize_label rc = call finalize >> done_label rc

-- The session, from C_OpenSession on, with the demos that it runs.
pub run_session : (slot : ℕ) → List (ℕ → Demo ℕ) → Demo ℕ
unfolding run_all finalize_label
run_session slot demos =
    on_ok (open_session slot) (λ r. finalize_label 1)
      λ r. run_all (handle_of r) demos 0 >>= λ rc.
        call (close_session (handle_of r)) >> finalize_label rc

-- From C_GetSlotList on. `indeterminate` is the content of the uninitialised `slots[0]`: the result of
-- the second C_GetSlotList is not looked at.
pub use_slot : (indeterminate : ℕ) → Demo ℕ
unfolding finalize_label run_session
use_slot indeterminate =
    on_ok (get_slot_list true none) (λ r. finalize_label 1)
      λ r.
        if r.len == 0
        then finalize_label 1
        else (call (get_slot_list true (some (if ltb 8 r.len then 8 else r.len))) >>= λ s.
            run_session (get_or (fill [] s) 0 indeterminate) demos)

-- From the look-up of C_GetFunctionList on.
pub use_library : (indeterminate : ℕ) → Demo ℕ
unfolding done_label use_slot
use_library indeterminate =
    on_ok get_function_list (λ r. done_label 1)
      λ r. on_ok initialize (λ r. done_label 1) (λ r. use_slot indeterminate)

unfoldable pub main : (indeterminate : ℕ) → Demo ℕ
unfolding use_library
main indeterminate = on_ok open_library (λ r. ret 1) (λ r. use_library indeterminate)
