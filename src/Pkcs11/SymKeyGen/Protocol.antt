-- ===== src/Pkcs11/SymKeyGen/Protocol.antt =====
-- `run_sym_key_gen` under the rules of PKCS#11.
use se05x.Base.{ℕ, refl, false, List, [], ◌∷◌}
use se05x.Pkcs11.Cryptoki.{Demo, handle_of, aes_key_gen, generic_secret_key_gen}
use se05x.Pkcs11.Protocol.{idle}
use se05x.Pkcs11.Protocol.Rules.{
  within, Holds, Leaves, Holds-generate_key, Holds-destroy, Leaves-invalid,
}
use se05x.Pkcs11.SymKeyGen.{
  AesKey, aes_keys, aes_template, secret_template, aes_loop, generic_secret, run_sym_key_gen,
}

aes_loop-Leaves :
    (s : ℕ) (live : List ℕ) (after : Demo ℕ) (keys : List AesKey)
    → Holds after (Leaves s live) (within s live idle false)
    → Holds (aes_loop s after keys) (Leaves s live) (within s live idle false)
unfolding aes_loop
aes_loop-Leaves s live after [] h = h
aes_loop-Leaves s live after (k ∷ keys) h =
    Holds-generate_key s live idle false _ _ _ aes_key_gen (aes_template k)
      (λ r _ _ _.
        Holds-destroy s (handle_of r) live idle false _ _ (aes_loop-Leaves s live after keys h))
      (λ r e _ _. Leaves-invalid s (handle_of r) live e)

generic_secret-Leaves :
    (s : ℕ) (live : List ℕ) → Holds (generic_secret s) (Leaves s live) (within s live idle false)
unfolding generic_secret
generic_secret-Leaves s live =
    Holds-generate_key s live idle false _ _ _ generic_secret_key_gen secret_template
      (λ r _ _ _. Holds-destroy s (handle_of r) live idle false _ _ (false, refl, refl))
      (λ r e _ _. Leaves-invalid s (handle_of r) live e)

pub run_sym_key_gen-Leaves :
    (s : ℕ) (live : List ℕ) → Holds (run_sym_key_gen s) (Leaves s live) (within s live idle false)
unfolding run_sym_key_gen
run_sym_key_gen-Leaves s live =
    aes_loop-Leaves s live (generic_secret s) aes_keys (generic_secret-Leaves s live)
