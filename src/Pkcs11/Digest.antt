-- ===== src/Pkcs11/Digest.antt =====
-- demo_digest.c: C_DigestInit and C_Digest for SHA-1/224/256/384/512.
pub mod Protocol
pub mod Verdict
use se05x.Base.{ℕ, List, [], ◌∷◌, codes}
use se05x.Prog.{ret, ◌>>◌}
use se05x.Pkcs11.Cryptoki.{
  ck_invalid_handle, Hash, sha_1, sha224, sha256, sha384, sha512, digest, digesting, fail_line,
  skip_line, op_init, op_data, Demo, fill, say, on_ok, print_hex,
}

-- kMsg
abbrev pub message : List ℕ
message = codes "SE051 PKCS#11 digest test"

-- kAlgs
abbrev pub algorithms : List Hash
algorithms = sha_1 ∷ sha224 ∷ sha256 ∷ sha384 ∷ sha512 ∷ []

-- The loop, with the buffer `digest` of 64 bytes as the rounds before left it.
pub digest_loop : (session : ℕ) (buf : List ℕ) (algorithms : List Hash) → Demo ℕ
digest_loop session buf [] = ret 0
digest_loop session buf (alg ∷ rest) =
    on_ok (op_init digesting session (digest alg) ck_invalid_handle)
      (λ r. say skip_line >> digest_loop session buf rest)
      (λ r.
        on_ok (op_data digesting session message 64) (λ r. say fail_line >> ret 1)
          (λ r. print_hex (fill buf r) r.len >> digest_loop session (fill buf r) rest))

unfoldable pub run_digest : (session : ℕ) → Demo ℕ
unfolding digest_loop
run_digest session = digest_loop session [] algorithms
