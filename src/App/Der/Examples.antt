-- ===== src/App/Der/Examples.antt =====
-- A request that is drafted against a concrete library.
use se05x.Base.{ℕ, ◌≡◌, refl, List, [], ◌∷◌, length, replicate}
use se05x.Prog.{Device, run}
use se05x.Prog.Hoare.{after}
use se05x.App.Sss.{
  Call, Reply, success, Write, write_len, write_tag, write_int, write_raw_buffer, write_bitstring,
  get_key, sign_digest, sha256_ret, asn1_write, write_names,
}
use se05x.App.Csr.{csr, ec_request}
use se05x.App.Der.{Draft, drafting, Certifies}
use se05x.App.Der.Requests.{algorithm_der, csr-Certifies}

-- DER, where a length is one byte and the algorithm is the object identifier of two bytes.
abbrev der : Write → List ℕ
der (write_len n) = n ∷ []
der (write_tag t) = t ∷ []
der (write_int n) = 2 ∷ 1 ∷ n ∷ []
der (write_raw_buffer xs) = xs
der (write_bitstring xs bits) = 3 ∷ length xs ∷ 0 ∷ xs
der _ = 6 ∷ 0 ∷ []

abbrev wrote : List ℕ → Reply
wrote bytes = record { status = success; bytes = bytes; len = length bytes }

abbrev answer_der : Call → Reply
answer_der (asn1_write w room) = wrote (der w)
answer_der (write_names room) = wrote (48 ∷ 0 ∷ [])
answer_der (get_key v room) = wrote (replicate 9 4)
answer_der (sha256_ret input) = wrote (replicate 32 1)
answer_der (sign_digest digest room) = wrote (replicate 7 2)
answer_der _ = wrote []

abbrev se051 : Device Call Reply
se051 = record { State = Unit {0}; answer = λ s c. (answer_der c, s) }

abbrev blank : Draft
blank = record {
  spki = [];
  subject = [];
  hashed = [];
  digest = [];
  signed = [];
  signature = [];
  der = [];
}

csr-Certifies_example :
    Certifies der
      (algorithm_der der (λ xs. refl) ec_request)
      (after (drafting der) blank (run se051 (csr ec_request) tt).log)
unfolding run csr
csr-Certifies_example = csr-Certifies der (λ xs. refl) ec_request se051 tt blank refl refl

-- What is encoded.
abbrev drafted : List ℕ
drafted = (after (drafting der) blank (run se051 (csr ec_request) tt).log).der

drafted_lem : length drafted ≡ 32
unfolding run csr
drafted_lem = refl
