-- ===== src/Pkcs11/Hmac/Protocol.antt =====
-- `run_hmac` under the rules of PKCS#11.
use se05x.Base.{ℕ, ◌≡◌, refl, true, false, List, [], ◌∷◌, take, ltb, length, member}
use se05x.Pkcs11.Cryptoki.{
  Hash, sha_1, sha224, sha256, sha384, sha512, hmac, signing, verifying, Demo, handle_of, fill,
}
use se05x.Pkcs11.Protocol.{idle, output_bound}
use se05x.Pkcs11.Protocol.Rules.{
  within, push, Holds, Leaves, Continues, Holds-create_object, Holds-op_init, Holds-op_data,
  Holds-op_verify, Holds-destroy, member-push,
}
use se05x.Pkcs11.Hmac.{message, import_template, algorithms, hmac_loop, hmac_cleanup, run_hmac}

-- The buffer `mac` of 64 bytes has room for every HMAC.
mac_room : (h : Hash) (n : ℕ) → ltb 64 (output_bound (hmac h) n) ≡ false
mac_room sha_1 n = refl
mac_room sha224 n = refl
mac_room sha256 n = refl
mac_room sha384 n = refl
mac_room sha512 n = refl

hmac_cleanup-Leaves :
    (s key : ℕ) (live : List ℕ) → Continues s live (hmac_cleanup s key) (push key live)
unfolding hmac_cleanup
hmac_cleanup-Leaves s key live f = Holds-destroy s key live idle f _ _ (f, refl, refl)

hmac_loop-Leaves :
    (s key : ℕ) (live now : List ℕ) (cleanup : ℕ → Demo ℕ) (algs : List Hash)
    → member key now ≡ true
    → Continues s live cleanup now
    → Holds (hmac_loop s key cleanup algs) (Leaves s live) (within s now idle false)
unfolding hmac_loop
hmac_loop-Leaves s key live now cleanup [] known h = h false
hmac_loop-Leaves s key live now cleanup (alg ∷ rest) known h =
    let again = hmac_loop-Leaves s key live now cleanup rest known h in
    Holds-op_init s now false _ _ _ signing (hmac alg) key known
      (λ r.
        Holds-op_data s now false _ _ _ signing (hmac alg) message 64
          (mac_room alg (length message))
          (λ r _ _ _ _.
            Holds-op_init s now false _ _ _ verifying (hmac alg) key known
              (λ _.
                Holds-op_verify s now false _ _ _ verifying (hmac alg) message
                  (take r.len (fill [] r)) refl (λ _ _ _. again) (λ _ _ _. h true))
              (λ _ _ _. h true))
          (λ _ _ _. h true))
      (λ _ _ _. again)

pub run_hmac-Leaves :
    (s : ℕ) (live : List ℕ) → Holds (run_hmac s) (Leaves s live) (within s live idle false)
unfolding run_hmac
run_hmac-Leaves s live =
    Holds-create_object s live idle false _ _ _ import_template
      (λ r valid _ _.
        hmac_loop-Leaves s (handle_of r) live (push (handle_of r) live)
          (hmac_cleanup s (handle_of r)) algorithms (member-push (handle_of r) live valid)
          (hmac_cleanup-Leaves s (handle_of r) live))
      (λ r _ _ _. hmac_cleanup-Leaves s (handle_of r) live true)
