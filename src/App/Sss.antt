-- ===== src/App/Sss.antt =====
-- What the SSS demo application uses of Plug & Trust (SSS) and of mbedTLS, and the constants of
-- app/demo_se051.h. Neither library is part of the repository: their functions are the constructors
-- of `Call`, and a call of one is a node of a `Prog`.
use se05x.Base.{ℕ, Bool, String, List, ◌==◌, if◌then◌else◌}
use se05x.Prog.{Prog, act}

-- kStatus_SSS_Success and kStatus_SSS_Fail of fsl_sss_types.h.
abbrev pub success : ℕ
success = 0x5A5A5A5A

abbrev pub fail : ℕ
fail = 0x3C3C0000

-- DEMO_KEY_EC_ALICE, DEMO_KEY_EC_BOB, DEMO_KEY_EC_SHARED and DEMO_KEY_RSA.
abbrev pub key_ec_alice : ℕ
key_ec_alice = 0xEF000001

abbrev pub key_ec_bob : ℕ
key_ec_bob = 0xEF000002

abbrev pub key_ec_shared : ℕ
key_ec_shared = 0xEF000003

abbrev pub key_rsa : ℕ
key_rsa = 0xEF000010

-- EC_KEY_BITS, RSA_KEY_BITS, EC_KEYPAIR_MAX_BYTES, RSA_KEYPAIR_MAX_BYTES.
abbrev pub ec_key_bits : ℕ
ec_key_bits = 256

abbrev pub rsa_key_bits : ℕ
rsa_key_bits = 2048

abbrev pub ec_keypair_max_bytes : ℕ
ec_keypair_max_bytes = 200

abbrev pub rsa_keypair_max_bytes : ℕ
rsa_keypair_max_bytes = 1600

-- EC_PUB_BUF_LEN, EC_SIG_BUF_LEN, ECDH_SHARED_BUF_LEN, RSA_PUB_BUF_LEN, RSA_SIG_BUF_LEN.
abbrev pub ec_pub_buf_len : ℕ
ec_pub_buf_len = 200

abbrev pub ec_sig_buf_len : ℕ
ec_sig_buf_len = 128

abbrev pub ecdh_shared_buf_len : ℕ
ecdh_shared_buf_len = 64

abbrev pub rsa_pub_buf_len : ℕ
rsa_pub_buf_len = 512

abbrev pub rsa_sig_buf_len : ℕ
rsa_sig_buf_len = 256

-- The local variables that hold an SSS object or context, or a list of mbedTLS names, by number.
abbrev pub key_pair : ℕ
key_pair = 1

abbrev pub bob : ℕ
bob = 2

abbrev pub shared : ℕ
shared = 3

abbrev pub dig_ctx : ℕ
dig_ctx = 4

abbrev pub asym : ℕ
asym = 5

abbrev pub dctx : ℕ
dctx = 6

abbrev pub rng : ℕ
rng = 7

-- `obj` of erase_key_if_exists
abbrev pub obj : ℕ
obj = 8

abbrev pub names : ℕ
names = 9

pub data Algorithm : Type 0 where
  sha256 sha384 sha512 ecdsa_sha256 rsassa_pkcs1_v1_5_sha256 rsaes_pkcs1_oaep_sha256 ecdh :
      Algorithm

pub data Mode : Type 0 where
  mode_digest mode_sign mode_verify mode_encrypt mode_decrypt compute_shared_secret : Mode

pub data KeyPart : Type 0 where
  part_pair part_public part_default : KeyPart

pub data CipherType : Type 0 where
  ec_nist_p aes rsa_crt rsa : CipherType

pub data KeyMode : Type 0 where
  persistent transient : KeyMode

-- The initialiser of a variable: sss_key_object_init, sss_rng_context_init, sss_digest_context_init,
-- sss_asymmetric_context_init, sss_derive_key_context_init, mbedtls_x509_string_to_names.
pub data Init : Type 0 where
  object rng_context : Init
  digest_context : Algorithm → Mode → Init
  asymmetric_context derive_key_context : (key : ℕ) → Algorithm → Mode → Init
  string_to_names : (subject : List ℕ) → Init

-- The writers mbedtls_asn1_write_xxx under MBEDTLS_ASN1_CHK_ADD.
pub data Write : Type 0 where
  write_len write_tag write_int : ℕ → Write
  write_raw_buffer : List ℕ → Write
  write_oid : (oid : String) → Write
  write_bitstring : List ℕ → (bits : ℕ) → Write
  -- The object identifier; the `_ext` form says that there are no parameters.
  write_algorithm_identifier : (oid : String) → (has_parameters : Bool) → Write

pub data Call : Type 0 where
  init : (variable : ℕ) → Init → Call
  free : (variable : ℕ) → Call
  get_handle : (object id : ℕ) → Call
  allocate_handle : (object id : ℕ) → KeyPart → CipherType → (max_bytes : ℕ) → KeyMode → Call
  generate_key : (object bits : ℕ) → Call
  set_key : (object : ℕ) → (key : List ℕ) → (bits : ℕ) → Call
  get_key : (object room : ℕ) → Call
  erase_key : (object : ℕ) → Call
  get_random : (room : ℕ) → Call
  digest_one_go : (message : List ℕ) → (room : ℕ) → Call
  sign_digest : (digest : List ℕ) → (room : ℕ) → Call
  verify_digest : (digest signature : List ℕ) → Call
  encrypt decrypt : (input : List ℕ) → (room : ℕ) → Call
  derive_dh : (other derived : ℕ) → Call
  -- mbedtls_sha256_ret; a writer with the room left in front of what is written; the names.
  sha256_ret : (input : List ℕ) → Call
  asn1_write : Write → (room : ℕ) → Call
  write_names : (room : ℕ) → Call
  -- mbedtls_pem_write_buffer, and a file that is opened, written and closed.
  pem_write_buffer : (input : List ℕ) → (room : ℕ) → Call
  write_file : (path : String) → List ℕ → Call

-- What a call gives back: its status, the bytes that it wrote, and the value of the length variable
-- after it. For an mbedTLS function the status is `success` where its result is not an error, and the
-- result as an `sss_status_t` where it is; a writer's length is its result.
pub record Reply : Type 0 where
  pub status : ℕ
  pub bytes : List ℕ
  pub len : ℕ

abbrev pub Sss : Type 0 → Type 0
Sss A = Prog Call Reply A

abbrev pub is_success : Reply → Bool
is_success r = r.status == success

-- if (call == kStatus_SSS_Success) next else otherwise
abbrev pub on_success : {A : Type 0} → Call → (Reply → Sss A) → (Reply → Sss A) → Sss A
on_success c next otherwise = act c (λ r. if is_success r then next r else otherwise r)

-- status = call; ENSURE_OR_GO_CLEANUP(status == kStatus_SSS_Success), with the label `cleanup`.
abbrev pub ensure : {A : Type 0} → Call → (cleanup : ℕ → Sss A) → (Reply → Sss A) → Sss A
ensure c cleanup next = on_success c next (λ r. cleanup r.status)
