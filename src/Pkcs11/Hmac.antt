-- ===== src/Pkcs11/Hmac.antt =====
-- demo_hmac.c: import of a generic secret key, HMAC sign and verify with four hashes.
pub mod Protocol
pub mod Verdict
use se05x.Base.{ℕ, true, false, List, [], ◌∷◌, take, replicate, codes}
use se05x.Prog.{ret, ◌>>=◌, ◌>>◌}
use se05x.Pkcs11.Cryptoki.{
  Hash, sha_1, sha256, sha384, sha512, hmac, Attribute, object_class, key_type, token, sign, verify,
  sensitive, value, label, id, secret_key, generic_secret, signing, verifying, fail_line, skip_line,
  valid_line, create_object, op_init, op_data, op_verify, Demo, handle_of, fill, say, on_ok,
  ck_check, destroy, print_hex,
}

-- kMsg
abbrev pub message : List ℕ
message = codes "SE051 PKCS#11 HMAC test message"

-- importTmpl, with kKey32
abbrev pub import_template : List Attribute
import_template =
    object_class secret_key
    ∷ key_type generic_secret
    ∷ token true
    ∷ sign true
    ∷ verify true
    ∷ sensitive false
    ∷ value (replicate 32 0x0B)
    ∷ label "sss:0xEF000060"
    ∷ id (0xEF ∷ 0x00 ∷ 0x00 ∷ 0x60 ∷ [])
    ∷ []

-- kAlgs
abbrev pub algorithms : List Hash
algorithms = sha_1 ∷ sha256 ∷ sha384 ∷ sha512 ∷ []

-- The loop; `cleanup` is the label, with the value of `rc`.
pub hmac_loop : (session key : ℕ) (cleanup : ℕ → Demo ℕ) → List Hash → Demo ℕ
hmac_loop session key cleanup [] = cleanup 0
hmac_loop session key cleanup (alg ∷ rest) =
    let bad = say fail_line >> cleanup 1 in
    on_ok (op_init signing session (hmac alg) key)
      (λ r. say skip_line >> hmac_loop session key cleanup rest)
      λ r.
        on_ok (op_data signing session message 64) (λ r. bad)
          λ r.
            print_hex (fill [] r) r.len
            >> on_ok (op_init verifying session (hmac alg) key) (λ v. bad)
                λ v.
                  on_ok (op_verify session message (take r.len (fill [] r))) (λ v. bad)
                    (λ v. say valid_line >> hmac_loop session key cleanup rest)

pub hmac_cleanup : (session key rc : ℕ) → Demo ℕ
hmac_cleanup session key rc = destroy session key >>= λ h. ret rc

unfoldable pub run_hmac : (session : ℕ) → Demo ℕ
unfolding hmac_loop hmac_cleanup
run_hmac session =
    ck_check (create_object session import_template) (λ r. hmac_cleanup session (handle_of r) 1)
      (λ r. hmac_loop session (handle_of r) (hmac_cleanup session (handle_of r)) algorithms)
