-- ===== src/Cpp/Csr.antt =====
-- cpp_app/csr.cpp. As in App/Csr, a buffer that is written backwards is what has been written to it
-- so far, first byte first, with the length that the code keeps.
use se05x.Base.{
  ℕ, ◌+◌, ◌-◌, ◌*◌, Bool, true, false, String, List, [], ◌++◌, ltb, take, length, if◌then◌else◌,
}
use se05x.Prog.{act}
use se05x.App.Sss.{
  Reply, is_success, fail, names, string_to_names, Write, write_len, write_tag, write_int,
  write_oid, write_bitstring, write_algorithm_identifier, init, free, asn1_write, write_names,
  pem_write_buffer, sha256_ret,
}
use se05x.App.Csr.{Written, empty}
use se05x.Cpp.Calls.{Text, Cpp, ◌>>=◌, ◌>>◌, pure, raise, call, sss, crypto_error}
use se05x.Cpp.EcKey
use se05x.Cpp.EcKey.{EcKey}
use se05x.Cpp.RsaKey
use se05x.Cpp.RsaKey.{RsaKey}

-- A CryptoError with the default status.
abbrev failure : {A : Type 0} → String → Text → Cpp A
failure message detail = raise (crypto_error message detail fail)

-- A buffer after a writer.
abbrev grow : Written → Reply → Written
grow b r = record { content = r.bytes ++ b.content; len = b.len + r.len }

-- CHK, in a buffer of `size` bytes
unfoldable pub chk : Write → (size : ℕ) → Written → Cpp Written
chk w size b =
    act (sss (asn1_write w (size - length b.content)))
      λ r. if is_success r then pure (grow b r) else failure "mbedtls ASN.1 write failed" []

-- A copy in front of what is written.
abbrev pub paste : List ℕ → Written → Written
paste xs b = record { content = xs ++ b.content; len = b.len + length xs }

-- SEQUENCE { content }, which ends either construction.
unfoldable pub wrap : (size : ℕ) → Written → Cpp (List ℕ)
unfolding chk
wrap size b = do
  c ← chk (write_len b.len) size b
  e ← chk (write_tag 0x30) size c
  pure (take e.len e.content)

-- From the subject Name on: `b` is what stands behind it.
unfoldable pub subject_and_version : Written → Cpp (List ℕ)
unfolding chk wrap
subject_and_version b = do
  r ← call (sss (write_names (4096 - length b.content)))
  call (sss (free names))
  c ← (if is_success r then pure (grow b r) else failure "x509_write_names failed" [])
  e ← chk (write_int 0) 4096 c
  wrap 4096 e

unfoldable pub build_cri : (subject_dn : Text) (spki : List ℕ) → Cpp (List ℕ)
unfolding chk subject_and_version
build_cri subject_dn spki = do
  n ← call (sss (init names (string_to_names subject_dn)))
  if is_success n then pure tt else failure "invalid subject DN: " subject_dn
  a ← chk (write_len 0) 4096 empty
  b ← chk (write_tag 0xA0) 4096 a
  if ltb (4096 - length b.content) (length spki)
      then call (sss (free names)) >> failure "CSR buffer too small for public key" []
      else pure tt
  subject_and_version (paste spki b)

-- What is in front of `content`, and its length alone.
unfoldable pub write_sig_alg_id : (size : ℕ) (is_ec : Bool) (content : List ℕ) → Cpp Written
unfolding chk
write_sig_alg_id size is_ec content =
    let start : Written = record { content = content; len = 0 } in
    if is_ec
    then (do
      a ← chk (write_oid "MBEDTLS_OID_ECDSA_SHA256") size start
      b ← chk (write_len a.len) size a
      chk (write_tag 0x30) size b)
    else chk (write_algorithm_identifier "MBEDTLS_OID_PKCS1_SHA256" true) size start

unfoldable pub to_pem : (der : List ℕ) → Cpp Text
to_pem der =
    let room = length der * 2 + 256 in
    act (sss (pem_write_buffer der room))
      λ r. if is_success r then pure (take r.len r.bytes) else failure "pem_write_buffer failed" []

unfoldable pub assemble_csr : (cri signature : List ℕ) (is_ec : Bool) → Cpp Text
unfolding chk write_sig_alg_id wrap to_pem
assemble_csr cri signature is_ec = do
  a ← chk (write_bitstring signature (length signature * 8)) 8192 empty
  b ← write_sig_alg_id 8192 is_ec a.content
  let c = record b { len = a.len + b.len }
  if ltb (8192 - length c.content) (length cri)
      then failure "CSR buffer too small for CRI" []
      else pure tt
  der ← wrap 8192 (paste cri c)
  to_pem der

unfoldable pub make_csr_impl :
    (subject_dn : Text) (spki : List ℕ) (sign : List ℕ → Cpp (List ℕ)) (is_ec : Bool) → Cpp Text
unfolding build_cri assemble_csr
make_csr_impl subject_dn spki sign is_ec = do
  cri ← build_cri subject_dn spki
  h ← call (sss (sha256_ret cri))
  if is_success h then pure tt else failure "sha256 over CRI failed" []
  sig ← sign (take 32 h.bytes)
  assemble_csr cri sig is_ec

unfoldable pub make_ec_csr : EcKey → (subject_dn : Text) → Cpp Text
unfolding EcKey.public_key_der EcKey.sign make_csr_impl
make_ec_csr k subject_dn = do
  spki ← EcKey.public_key_der
  make_csr_impl subject_dn spki (EcKey.sign k) true

unfoldable pub make_rsa_csr : RsaKey → (subject_dn : Text) → Cpp Text
unfolding RsaKey.public_key_der RsaKey.sign make_csr_impl
make_rsa_csr k subject_dn = do
  spki ← RsaKey.public_key_der k
  make_csr_impl subject_dn spki (RsaKey.sign k) false
