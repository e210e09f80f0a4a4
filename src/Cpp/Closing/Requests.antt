-- ===== src/Cpp/Closing/Requests.antt =====
-- What the functions of cpp_app/csr.cpp leave set up, beside the key.
use se05x.Base.{
  ℕ, ◌≡◌, refl, Bool, true, false, not, ◌||◌, List, [], ◌∷◌, ◌*◌, ◌-◌, ◌+◌, ltb, length, take,
  if◌then◌else◌,
}
use se05x.App.Sss.{
  is_success, names, string_to_names, Write, write_len, write_tag, write_int, write_oid,
  write_bitstring, write_algorithm_identifier, init, free, asn1_write, write_names,
  pem_write_buffer, sha256_ret,
}
use se05x.App.Csr.{Written, empty}
use se05x.App.Watching.{Open}
use se05x.Cpp.Calls.{Text, Cpp, sss}
use se05x.Cpp.EcKey
use se05x.Cpp.EcKey.{EcKey}
use se05x.Cpp.RsaKey
use se05x.Cpp.RsaKey.{RsaKey}
use se05x.Cpp.Csr.{
  chk, paste, wrap, subject_and_version, build_cri, write_sig_alg_id, to_pem, assemble_csr,
  make_csr_impl, make_ec_csr, make_rsa_csr,
}
use se05x.Cpp.Watching.{World, inside, settled, Runs}
use se05x.Cpp.Watching.Rules.{
  Runs-then, Does-pure, Does-call, Does-if, Does-branch, Does-raise, Does-test,
}
use se05x.Cpp.Closing.{with_key, ec_sign-Runs, ec_public_key_der-Runs}
use se05x.Cpp.Closing.Rsa

-- Beside the key, the names.
abbrev with_names : Text → Open
with_names dn = (names, string_to_names dn) ∷ with_key []

-- A writer that fails may leave the names behind.
chk-Runs :
    (w : Write) (size : ℕ) (b : Written) (l : Open)
    → settled l true false ≡ true
    → Runs (chk w size b) l l
unfolding chk
chk-Runs w size b l h =
    Does-branch (sss (asn1_write w (size - length b.content))) _ _ (λ r. Does-pure refl)
      (λ r. Does-raise (refl, refl, refl, refl, h, refl))

wrap-Runs : (size : ℕ) (b : Written) → Runs (wrap size b) (with_key []) (with_key [])
unfolding wrap
wrap-Runs size b =
    Runs-then (chk-Runs (write_len b.len) size b (with_key []) refl)
      λ c. Runs-then (chk-Runs (write_tag 0x30) size c (with_key []) refl) λ e. Does-pure refl

to_pem-Runs : (der : List ℕ) → Runs (to_pem der) (with_key []) (with_key [])
unfolding to_pem
to_pem-Runs der =
    Does-branch (sss (pem_write_buffer der (length der * 2 + 256))) _ _ (λ r. Does-pure refl)
      (λ r. Does-raise (refl, refl, refl, refl, refl, refl))

write_sig_alg_id-Runs :
    (size : ℕ) (is_ec : Bool) (content : List ℕ)
    → Runs (write_sig_alg_id size is_ec content) (with_key []) (with_key [])
unfolding write_sig_alg_id
write_sig_alg_id-Runs size true content =
    Runs-then (chk-Runs (write_oid "MBEDTLS_OID_ECDSA_SHA256") size _ (with_key []) refl) λ a.
      Runs-then (chk-Runs (write_len a.len) size a (with_key []) refl)
        λ b. chk-Runs (write_tag 0x30) size b (with_key []) refl
write_sig_alg_id-Runs size false content =
    chk-Runs (write_algorithm_identifier "MBEDTLS_OID_PKCS1_SHA256" true) size _ (with_key []) refl

assemble_csr-Runs :
    (cri sig : List ℕ) (is_ec : Bool)
    → Runs (assemble_csr cri sig is_ec) (with_key []) (with_key [])
unfolding assemble_csr
assemble_csr-Runs cri sig is_ec =
    Runs-then (chk-Runs (write_bitstring sig (length sig * 8)) 8192 empty (with_key []) refl) λ a.
      Runs-then (write_sig_alg_id-Runs 8192 is_ec a.content) λ b.
        Runs-then
          (Does-if (ltb (8192 - length b.content) (length cri))
            (λ _. Does-raise (refl, refl, refl, refl, refl, refl)) (λ _. Does-pure refl))
          λ _.
            Runs-then (wrap-Runs 8192 (paste cri (record b { len = a.len + b.len })))
              λ der. to_pem-Runs der

-- With the key alone, after a call that succeeded or not.
abbrev tried : Bool → World
tried b = record (inside (with_key [])) { failed = not b || false }

subject_and_version-Runs :
    (dn : Text) (b : Written) → Runs (subject_and_version b) (with_names dn) (with_key [])
unfolding subject_and_version
subject_and_version-Runs dn b = Does-call (sss (write_names (4096 - length b.content))) _ λ r.
    Does-call (sss (free names)) _ λ _.
      Runs-then
        (Does-test (is_success r) tried (Does-pure refl)
          (Does-raise (refl, refl, refl, refl, refl, refl)))
        λ c. Runs-then (chk-Runs (write_int 0) 4096 c (with_key []) refl) λ e. wrap-Runs 4096 e

-- The names were parsed, or not.
abbrev parsed : Text → Bool → World
parsed dn b = record (inside (if b then with_names dn else with_key [])) { failed = not b || false }

build_cri-Runs : (dn : Text) (spki : List ℕ) → Runs (build_cri dn spki) (with_key []) (with_key [])
unfolding build_cri
build_cri-Runs dn spki = Does-call (sss (init names (string_to_names dn))) _ λ n.
    Runs-then
      (Does-test (is_success n) (parsed dn) (Does-pure refl)
        (Does-raise (refl, refl, refl, refl, refl, refl)))
      λ _. Runs-then (chk-Runs (write_len 0) 4096 empty (with_names dn) refl) λ a.
        Runs-then (chk-Runs (write_tag 0xA0) 4096 a (with_names dn) refl) λ b.
          Runs-then
            (Does-if (ltb (4096 - length b.content) (length spki))
              (λ _.
                Does-call (sss (free names)) _ λ _. Does-raise (refl, refl, refl, refl, refl, refl))
              (λ _. Does-pure refl))
            λ _. subject_and_version-Runs dn (paste spki b)

make_csr_impl-Runs :
    (dn : Text) (spki : List ℕ) (sign : List ℕ → Cpp (List ℕ)) (is_ec : Bool)
    → ((d : List ℕ) → Runs (sign d) (with_key []) (with_key []))
    → Runs (make_csr_impl dn spki sign is_ec) (with_key []) (with_key [])
unfolding make_csr_impl
make_csr_impl-Runs dn spki sign is_ec h = Runs-then (build_cri-Runs dn spki) λ cri.
    Does-call (sss (sha256_ret cri)) _ λ r.
      Runs-then
        (Does-test (is_success r) tried (Does-pure refl)
          (Does-raise (refl, refl, refl, refl, refl, refl)))
        λ _. Runs-then (h (take 32 r.bytes)) λ sig. assemble_csr-Runs cri sig is_ec

pub make_ec_csr-Runs : (k : EcKey) (dn : Text) → Runs (make_ec_csr k dn) (with_key []) (with_key [])
unfolding make_ec_csr
make_ec_csr-Runs k dn =
    Runs-then (ec_public_key_der-Runs false)
      λ spki. make_csr_impl-Runs dn spki (EcKey.sign k) true (ec_sign-Runs k)

pub make_rsa_csr-Runs :
    (k : RsaKey) (dn : Text) → Runs (make_rsa_csr k dn) (with_key []) (with_key [])
unfolding make_rsa_csr
make_rsa_csr-Runs k dn =
    Runs-then (Rsa.public_key_der-Runs k false)
      λ spki. make_csr_impl-Runs dn spki (RsaKey.sign k) false (Rsa.sign-Runs k)
