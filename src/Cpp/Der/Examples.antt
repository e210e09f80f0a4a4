-- ===== src/Cpp/Der/Examples.antt =====
-- Requests that the C++ application drafts against a concrete library.
use se05x.Base.{◌≡◌, ℕ, refl, true, false, List, [], ◌∷◌, ◌++◌, length, replicate, codes}
use se05x.Prog.{Device, run}
use se05x.Prog.Hoare.{after}
use se05x.App.Sss
use se05x.App.Sss.{Reply, success, sha256, Write, write_len, write_tag, write_int, write_bitstring}
use se05x.App.Der.{Draft, Certifies}
use se05x.Cpp.Calls.{ok, Call, sss, Text}
use se05x.Cpp.Args.{nist_p256}
use se05x.Cpp.EcKey.{EcKey}
use se05x.Cpp.RsaKey.{RsaKey}
use se05x.Cpp.Csr.{make_ec_csr, make_rsa_csr}
use se05x.Cpp.Der.{observing, signed_with}
use se05x.Cpp.Der.Requests.{ec, rsa, make_csr, make_csr-Certifies}

-- DER, where a length is one byte, and an object identifier has two bytes.
abbrev der : Write → List ℕ
der (write_len n) = n ∷ []
der (write_tag t) = t ∷ []
der (write_int n) = 2 ∷ 1 ∷ n ∷ []
der (write_bitstring xs bits) = 3 ∷ length xs ∷ 0 ∷ xs
der _ = 6 ∷ 0 ∷ []

abbrev wrote : List ℕ → Reply
wrote bytes = record { status = success; bytes = bytes; len = length bytes }

abbrev answer_der : Call → Reply
answer_der (sss (Sss.asn1_write w room)) = wrote (der w)
answer_der (sss (Sss.write_names room)) = wrote (48 ∷ 0 ∷ [])
answer_der (sss (Sss.get_key v room)) = wrote (replicate 9 4)
answer_der (sss (Sss.sha256_ret input)) = wrote (replicate 32 1)
answer_der (sss (Sss.sign_digest digest room)) = wrote (replicate 7 2)
answer_der (sss (Sss.pem_write_buffer input room)) = wrote input
answer_der _ = wrote []

abbrev se051 : Device Call Reply
se051 = record { State = Unit {0}; answer = λ s c. (answer_der c, s) }

abbrev blank : Draft
blank = record {
  spki = [];
  subject = [];
  hashed = [];
  digest = [];
  signed = [];
  signature = [];
  der = [];
}

abbrev ec_key : EcKey
ec_key = record { sig_algo = sha256; curve = nist_p256; owns = false }

abbrev rsa_key : RsaKey
rsa_key = record { bits = 2048; owns = false }

abbrev dn : Text
dn = codes "CN=A"

-- The PEM of a run is, by this library, what was encoded.
abbrev ec_pem : Text
ec_pem =
    48 ∷ 32 ∷ 48 ∷ 16 ∷ 2 ∷ 1 ∷ 0 ∷ 48 ∷ 0 ∷ (replicate 9 4 ++ (0xA0 ∷ 0 ∷ []))
    ++ (48 ∷ 2 ∷ 6 ∷ 0 ∷ 3 ∷ 7 ∷ 0 ∷ replicate 7 2)

abbrev rsa_pem : Text
rsa_pem =
    48 ∷ 30 ∷ 48 ∷ 16 ∷ 2 ∷ 1 ∷ 0 ∷ 48 ∷ 0 ∷ (replicate 9 4 ++ (0xA0 ∷ 0 ∷ []))
    ++ (6 ∷ 0 ∷ 3 ∷ 7 ∷ 0 ∷ replicate 7 2)

make_csr-Certifies_example :
    Certifies der
      (signed_with der true)
      (after (observing der) blank (run se051 (make_csr (ec ec_key) dn) tt).log)
unfolding run make_ec_csr
make_csr-Certifies_example = make_csr-Certifies der se051 tt blank (ec ec_key) dn ec_pem refl refl

-- The same for an RSA key.
rsa_csr_lem : (run se051 (make_csr (rsa rsa_key) dn) tt).value ≡ ok rsa_pem
unfolding run make_rsa_csr
rsa_csr_lem = refl
