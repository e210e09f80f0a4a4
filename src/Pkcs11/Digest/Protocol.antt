-- ===== src/Pkcs11/Digest/Protocol.antt =====
-- `run_digest` under the rules of PKCS#11.
use se05x.Base.{ℕ, ◌≡◌, refl, true, false, List, [], ◌∷◌, ltb, length}
use se05x.Pkcs11.Cryptoki.{
  Hash, sha_1, sha224, sha256, sha384, sha512, digest, digesting, ck_invalid_handle, fill,
}
use se05x.Pkcs11.Protocol.{idle, output_bound}
use se05x.Pkcs11.Protocol.Rules.{within, Holds, Leaves, Holds-op_init, Holds-op_data}
use se05x.Pkcs11.Digest.{digest_loop, run_digest, message, algorithms}

-- The buffer of 64 bytes has room for every digest.
digest_room : (h : Hash) (n : ℕ) → ltb 64 (output_bound (digest h) n) ≡ false
digest_room sha_1 n = refl
digest_room sha224 n = refl
digest_room sha256 n = refl
digest_room sha384 n = refl
digest_room sha512 n = refl

digest_loop-Leaves :
    (s : ℕ) (live buf : List ℕ) (algs : List Hash)
    → Holds (digest_loop s buf algs) (Leaves s live) (within s live idle false)
unfolding digest_loop
digest_loop-Leaves s live buf [] = (false, refl, refl)
digest_loop-Leaves s live buf (alg ∷ rest) =
    Holds-op_init s live false _ _ _ digesting (digest alg) ck_invalid_handle refl
      (λ r.
        Holds-op_data s live false _ _ _ digesting (digest alg) message 64
          (digest_room alg (length message))
          (λ r _ _ _ _. digest_loop-Leaves s live (fill buf r) rest) (λ r _ _. (true, refl, refl)))
      (λ r _ _. digest_loop-Leaves s live buf rest)

pub run_digest-Leaves :
    (s : ℕ) (live : List ℕ) → Holds (run_digest s) (Leaves s live) (within s live idle false)
unfolding run_digest
run_digest-Leaves s live = digest_loop-Leaves s live [] algorithms
