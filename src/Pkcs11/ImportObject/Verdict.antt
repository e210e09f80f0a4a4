-- ===== src/Pkcs11/ImportObject/Verdict.antt =====
-- The return code of `run_import_object`, from the replies alone.
use se05x.Base.{ℕ, ◌≡◌, refl, false, List}
use se05x.Prog.{Device, run}
use se05x.Pkcs11.Cryptoki.{
  Attribute, Call, Reply, Demo, handle_of, create_object, get_attribute_value, ec_params_of,
}
use se05x.Pkcs11.Protocol.Rules.{code}
use se05x.Pkcs11.Verdict.{any_fatal}
use se05x.Pkcs11.Verdict.Rules.{Judges, Judges-run, Judges-hard, Judges-soft, Judges-destroy}
use se05x.Pkcs11.ImportObject.{
  aes_template, secret_template, ec_template, import_secret, import_ec_public, run_import_object,
}

import_secret-Judges :
    (s : ℕ) (tmpl : List Attribute) (after : Demo ℕ)
    → Judges false after false
    → Judges false (import_secret s tmpl after) false
unfolding import_secret
import_secret-Judges s tmpl after h =
    Judges-hard false false _ _ (create_object s tmpl) refl
      (λ r _ _. Judges-destroy false false s (handle_of r) _ (λ _. h)) (λ r _ _. refl)

import_ec_public-Judges : (s : ℕ) → Judges false (import_ec_public s) false
unfolding import_ec_public
import_ec_public-Judges s =
    Judges-hard false false _ _ (create_object s ec_template) refl
      (λ r _ _.
        let done = Judges-destroy false false s (handle_of r) _ (λ _. refl) in
        Judges-soft false false _ _ (get_attribute_value s (handle_of r) ec_params_of 16) refl
          (λ a _ _. done) (λ a. done))
      (λ r _ _. refl)

-- Whatever the library replies, `run_import_object` returns 1 if some C_CreateObject of its run
-- failed, and 0 otherwise: the read-back of the EC parameters may fail.
pub run_import_object_verdict :
    (d : Device Call Reply) (st : d.State) (s : ℕ)
    → (run d (run_import_object s) st).value
      ≡ code (any_fatal false (run d (run_import_object s) st).log)
unfolding run_import_object
run_import_object_verdict d st s = Judges-run false d _ st (
    import_secret-Judges s aes_template _
      (import_secret-Judges s secret_template _ (import_ec_public-Judges s)))
