-- ===== src/Pkcs11/ImportObject/Protocol.antt =====
-- `run_import_object` under the rules of PKCS#11.
use se05x.Base.{ℕ, refl, false, List}
use se05x.Pkcs11.Cryptoki.{Attribute, Demo, handle_of, ec_params_of}
use se05x.Pkcs11.Protocol.{idle}
use se05x.Pkcs11.Protocol.Rules.{
  within, push, Holds, Leaves, Holds-create_object, Holds-get_attribute_value, Holds-destroy,
  Leaves-invalid, member-push,
}
use se05x.Pkcs11.ImportObject.{
  aes_template, secret_template, ec_template, import_secret, import_ec_public, run_import_object,
}

import_secret-Leaves :
    (s : ℕ) (live : List ℕ) (tmpl : List Attribute) (after : Demo ℕ)
    → Holds after (Leaves s live) (within s live idle false)
    → Holds (import_secret s tmpl after) (Leaves s live) (within s live idle false)
unfolding import_secret
import_secret-Leaves s live tmpl after h =
    Holds-create_object s live idle false _ _ _ tmpl
      (λ r _ _ _. Holds-destroy s (handle_of r) live idle false _ _ h)
      (λ r e _ _. Leaves-invalid s (handle_of r) live e)

import_ec_public-Leaves :
    (s : ℕ) (live : List ℕ) → Holds (import_ec_public s) (Leaves s live) (within s live idle false)
unfolding import_ec_public
import_ec_public-Leaves s live =
    Holds-create_object s live idle false _ _ _ ec_template
      (λ r valid _ _.
        let done = Holds-destroy s (handle_of r) live idle false _ _ (false, refl, refl) in
        Holds-get_attribute_value s (push (handle_of r) live) idle false _ _ _ (handle_of r)
          ec_params_of 16 (member-push (handle_of r) live valid) (λ a _ _. done) (λ a. done))
      (λ r e _ _. Leaves-invalid s (handle_of r) live e)

pub run_import_object-Leaves :
    (s : ℕ) (live : List ℕ) → Holds (run_import_object s) (Leaves s live) (within s live idle false)
unfolding run_import_object
run_import_object-Leaves s live =
    import_secret-Leaves s live aes_template _
      (import_secret-Leaves s live secret_template _ (import_ec_public-Leaves s live))
