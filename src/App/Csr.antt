-- ===== src/App/Csr.antt =====
-- demo_ec_csr of app/demo_ec.c and demo_rsa_csr of app/demo_rsa.c, which differ in the key, the
-- sizes of the buffers, the algorithm and the files. A buffer that is written backwards is what has
-- been written to it so far, first byte first, with the length that the code keeps.
use se05x.Base.{
  ℕ, Bool, true, false, String, List, [], ◌++◌, ◌+◌, ◌-◌, ◌*◌, take, length, codes, if◌then◌else◌,
}
use se05x.Prog.{ret, act, call, ◌>>◌}
use se05x.App.Sss.{
  Sss, success, fail, key_pair, asym, names, key_ec_alice, key_rsa, Algorithm, ecdsa_sha256,
  rsassa_pkcs1_v1_5_sha256, mode_sign, ec_pub_buf_len, rsa_pub_buf_len, ec_sig_buf_len,
  rsa_sig_buf_len, object, asymmetric_context, string_to_names, Write, write_len, write_tag,
  write_raw_buffer, write_int, write_bitstring, write_algorithm_identifier, init, free, get_handle,
  get_key, sha256_ret, sign_digest, asn1_write, write_names, pem_write_buffer, write_file,
  is_success, on_success, ensure,
}

-- What the two functions differ in. `oid` is the name of the macro of mbedTLS.
pub record Request : Type 0 where
  pub key_id : ℕ
  pub algorithm : Algorithm
  pub spki_room : ℕ
  pub cri_size : ℕ
  pub sig_room : ℕ
  pub csr_size : ℕ
  pub oid : String
  pub has_parameters : Bool
  pub der_path : String
  pub pem_path : String

abbrev pub ec_request : Request
ec_request = record {
  key_id = key_ec_alice;
  algorithm = ecdsa_sha256;
  spki_room = ec_pub_buf_len;
  cri_size = 512;
  sig_room = ec_sig_buf_len;
  csr_size = 1024;
  oid = "MBEDTLS_OID_ECDSA_SHA256";
  has_parameters = false;
  der_path = "/tmp/ec_csr.der";
  pem_path = "/tmp/ec_csr.pem";
}

abbrev pub rsa_request : Request
rsa_request = record {
  key_id = key_rsa;
  algorithm = rsassa_pkcs1_v1_5_sha256;
  spki_room = rsa_pub_buf_len;
  cri_size = 1024;
  sig_room = rsa_sig_buf_len;
  csr_size = 2048;
  oid = "MBEDTLS_OID_PKCS1_SHA256";
  has_parameters = true;
  der_path = "/tmp/rsa_csr.der";
  pem_path = "/tmp/rsa_csr.pem";
}

pub record Written : Type 0 where
  pub content : List ℕ
  pub len : ℕ

abbrev pub empty : Written
empty = record { content = []; len = 0 }

-- MBEDTLS_ASN1_CHK_ADD(len, write(&p, buf, ...)), with `size` that of `buf`: on an error the macro
-- returns from the function, whose label `cleanup` is not reached.
unfoldable pub chk_add : Write → (size : ℕ) → Written → (Written → Sss ℕ) → Sss ℕ
chk_add w size b next =
    on_success (asn1_write w (size - length b.content))
      (λ r. next (record { content = r.bytes ++ b.content; len = b.len + r.len }))
      (λ r. ret r.status)

-- The label `cleanup` of either function.
unfoldable pub csr_cleanup : (status : ℕ) → Sss ℕ
csr_cleanup status = call (free asym) >> (call (free key_pair) >> ret status)

-- SEQUENCE { content }, which ends either construction.
unfoldable pub sequence : (size : ℕ) → Written → (List ℕ → Sss ℕ) → Sss ℕ
unfolding chk_add
sequence size b next =
    chk_add (write_len b.len) size b
      λ c. chk_add (write_tag 0x30) size c λ e. next (take e.len e.content)

-- The subject and the version, in front of what is written.
unfoldable pub subject_and_version : (size : ℕ) → Written → (List ℕ → Sss ℕ) → Sss ℕ
unfolding chk_add csr_cleanup sequence
subject_and_version size b next =
    on_success (init names (string_to_names (codes "CN=SE051-Demo")))
      (λ _. act (write_names (size - length b.content)) λ r.
        call (free names)
        >> (if is_success r
            then chk_add (write_int 0) size
                (record { content = r.bytes ++ b.content; len = b.len + r.len })
                (λ c. sequence size c next)
            else csr_cleanup fail))
      (λ _. csr_cleanup fail)

-- The CertificationRequestInfo.
unfoldable pub request_info : (size : ℕ) (spki : List ℕ) → (List ℕ → Sss ℕ) → Sss ℕ
unfolding chk_add subject_and_version
request_info size spki next = chk_add (write_len 0) size empty λ a.
    chk_add (write_tag 0xA0) size a
      λ b. chk_add (write_raw_buffer spki) size b λ c. subject_and_version size c next

-- The CertificationRequest: the signature, its algorithm, the CertificationRequestInfo.
unfoldable pub assemble :
    Request → (sig : List ℕ) (sig_len : ℕ) (cri : List ℕ) → (List ℕ → Sss ℕ) → Sss ℕ
unfolding chk_add sequence
assemble q sig sig_len cri next = chk_add (write_bitstring sig (sig_len * 8)) q.csr_size empty λ a.
    chk_add (write_algorithm_identifier q.oid q.has_parameters) q.csr_size a
      λ b. chk_add (write_raw_buffer cri) q.csr_size b λ c. sequence q.csr_size c next

-- The two files; a failure to encode or to write them is passed over.
unfoldable pub write_files : Request → (csr : List ℕ) → Sss ℕ
unfolding csr_cleanup
write_files q csr =
    call (write_file q.der_path csr)
    >> on_success (pem_write_buffer csr q.csr_size)
        (λ r. call (write_file q.pem_path (take r.len r.bytes)) >> csr_cleanup success)
        (λ _. csr_cleanup success)

-- From the hash of the CertificationRequestInfo on.
unfoldable pub sign_request : Request → (cri : List ℕ) → Sss ℕ
unfolding csr_cleanup assemble write_files
sign_request q cri =
    on_success (sha256_ret cri)
      (λ h. ensure (init asym (asymmetric_context key_pair q.algorithm mode_sign)) csr_cleanup λ _.
        ensure (sign_digest (take 32 h.bytes) q.sig_room) csr_cleanup
          λ s. call (free asym) >> assemble q (take s.len s.bytes) s.len cri (write_files q))
      (λ _. csr_cleanup fail)

unfoldable pub csr : Request → Sss ℕ
unfolding csr_cleanup request_info sign_request
csr q = ensure (init key_pair object) csr_cleanup λ _.
    ensure (get_handle key_pair q.key_id) csr_cleanup λ _.
      ensure (get_key key_pair q.spki_room) csr_cleanup
        λ k. request_info q.cri_size (take k.len k.bytes) (sign_request q)

unfoldable pub demo_ec_csr : Sss ℕ
unfolding csr
demo_ec_csr = csr ec_request

unfoldable pub demo_rsa_csr : Sss ℕ
unfolding csr
demo_rsa_csr = csr rsa_request
