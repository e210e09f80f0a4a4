-- ===== src/Pkcs11/Cryptoki.antt =====
-- What the demo suite uses of cryptoki.h, and the helpers and macros of demo_common.h.
-- The Cryptoki library is not part of the repository: its functions are the constructors of `Call`,
-- a call of one is a node of a `Prog`, and what it writes through its pointers is a `Reply`.
use se05x.Base.{
  ℕ, zero, suc, String, Bool, Option, List, [], ◌∷◌, ltb, ◌==◌, if◌then◌else◌, written, length,
  drop, ◌++◌,
}
use se05x.Prog.{Prog, ret, act, ◌>>◌, call}

-- Values of cryptoki.h.
abbrev pub ckr_ok : ℕ
ckr_ok = 0

abbrev pub ckr_buffer_too_small : ℕ
ckr_buffer_too_small = 0x150

abbrev pub ck_invalid_handle : ℕ
ck_invalid_handle = 0

pub data Hash : Type 0 where
  sha_1 sha224 sha256 sha384 sha512 : Hash

-- CK_MECHANISM with its parameter: CKM_SHA256_HMAC is `hmac sha256`, CKM_ECDSA_SHA384 is
-- `ecdsa sha384`. `rsa_pkcs_pss` has the hash and the MGF of its parameter and the salt's length,
-- `ecdh1_derive` the peer's public data (with CKD_NULL and no shared data).
pub data Mechanism : Type 0 where
  digest hmac ecdsa rsa_pkcs : Hash → Mechanism
  rsa_pkcs_pss : Hash → Hash → Hash → ℕ → Mechanism
  rsa_pkcs_oaep : Hash → Hash → Mechanism
  aes_ecb : Mechanism
  aes_cbc : List ℕ → Mechanism
  ec_key_pair_gen rsa_pkcs_key_pair_gen aes_key_gen generic_secret_key_gen : Mechanism
  ecdh1_derive : List ℕ → Mechanism

pub data ObjectClass : Type 0 where
  public_key secret_key : ObjectClass

pub data KeyType : Type 0 where
  aes generic_secret ec : KeyType

-- CK_ATTRIBUTE with its value: a row of a template.
pub data Attribute : Type 0 where
  object_class : ObjectClass → Attribute
  key_type : KeyType → Attribute
  token sensitive encrypt decrypt sign verify derive extractable : Bool → Attribute
  value_len modulus_bits : ℕ → Attribute
  value id ec_params ec_point public_exponent : List ℕ → Attribute
  label : String → Attribute

-- The attribute that C_GetAttributeValue is asked for.
pub data AttributeType : Type 0 where
  value_of ec_point_of ec_params_of modulus_of : AttributeType

-- The operations with an Init call: C_DigestInit, C_SignInit, C_VerifyInit, C_EncryptInit and
-- C_DecryptInit.
pub data Operation : Type 0 where
  digesting signing verifying encrypting decrypting : Operation

-- The lines that say how a step went. Headers, and lines that only repeat a handle, are left out.
pub data Line : Type 0 where
  ok_line fail_line skip_line valid_line roundtrip_line match_line differ_line stored_line : Line
  demo_failed_line : Line
  hex_line : List ℕ → Bool → Line
  -- The name of a mechanism; the class of an object.
  mechanism_line class_line : String → Line

pub data Call : Type 0 where
  print : Line → Call
  -- dlopen; dlsym with C_GetFunctionList; C_Initialize; C_Finalize; dlclose.
  open_library get_function_list initialize finalize close_library : Call
  get_info : Call
  get_slot_info get_token_info : (slot : ℕ) → Call
  -- With NULL_PTR (`none`) or with room for so many.
  get_mechanism_list : (slot : ℕ) → Option ℕ → Call
  get_slot_list : Bool → Option ℕ → Call
  open_session : ℕ → Call
  close_session : ℕ → Call
  generate_random : (session room : ℕ) → Call
  generate_key : (session : ℕ) → Mechanism → List Attribute → Call
  generate_key_pair : (session : ℕ) → Mechanism → (pub_tmpl priv_tmpl : List Attribute) → Call
  create_object : (session : ℕ) → List Attribute → Call
  derive_key : (session : ℕ) → Mechanism → (base : ℕ) → List Attribute → Call
  destroy_object : (session handle : ℕ) → Call
  get_attribute_value : (session handle : ℕ) → AttributeType → (room : ℕ) → Call
  find_objects_init find_objects_final : (session : ℕ) → Call
  find_objects : (session room : ℕ) → Call
  -- C_GetAttributeValue with CKA_CLASS, of an object that a search reported.
  get_object_class : (session handle : ℕ) → Call
  -- C_XxxInit; the key is CK_INVALID_HANDLE for a digest, which has none.
  op_init : Operation → (session : ℕ) → Mechanism → (key : ℕ) → Call
  -- C_Digest, C_Sign, C_Encrypt, C_Decrypt: the input, and the room in the output buffer.
  op_data : Operation → (session : ℕ) → (input : List ℕ) → (room : ℕ) → Call
  -- C_Verify: the message and the signature.
  op_verify : (session : ℕ) → (message signature : List ℕ) → Call

-- What a call gives back: the CK_RV, what was written through the handle pointers (`none`: nothing),
-- the bytes (or other numbers) written at the start of the output buffer, and the value of the length
-- or count variable after the call.
pub record Reply : Type 0 where
  pub rv : ℕ
  pub handle : Option ℕ
  pub handle2 : Option ℕ
  pub bytes : List ℕ
  pub len : ℕ

abbrev pub Demo : Type 0 → Type 0
Demo A = Prog Call Reply A

abbrev pub is_ok : Reply → Bool
is_ok r = r.rv == ckr_ok

-- `*h` after the call, where it was CK_INVALID_HANDLE before.
abbrev pub handle_of : Reply → ℕ
handle_of r = written r.handle ck_invalid_handle

abbrev pub handle2_of : Reply → ℕ
handle2_of r = written r.handle2 ck_invalid_handle

-- Constants of demo_common.h: kEcP256, kEcP384, kEcP521 and kRsaE.
abbrev pub ec_p256 : List ℕ
ec_p256 = 0x06 ∷ 0x08 ∷ 0x2A ∷ 0x86 ∷ 0x48 ∷ 0xCE ∷ 0x3D ∷ 0x03 ∷ 0x01 ∷ 0x07 ∷ []

abbrev pub ec_p384 : List ℕ
ec_p384 = 0x06 ∷ 0x05 ∷ 0x2B ∷ 0x81 ∷ 0x04 ∷ 0x00 ∷ 0x22 ∷ []

abbrev pub ec_p521 : List ℕ
ec_p521 = 0x06 ∷ 0x05 ∷ 0x2B ∷ 0x81 ∷ 0x04 ∷ 0x00 ∷ 0x23 ∷ []

abbrev pub rsa_e : List ℕ
rsa_e = 0x01 ∷ 0x00 ∷ 0x01 ∷ []

-- A buffer after the call. A buffer with no initialiser is `[]`: only what a callee wrote is read.
abbrev pub fill : List ℕ → Reply → List ℕ
fill buf r = r.bytes ++ drop (length r.bytes) buf

abbrev pub say : Line → Demo Reply
say l = call (print l)

-- rv = call; if (rv != CKR_OK) fail; else next
abbrev pub on_ok : {A : Type 0} → Call → (Reply → Demo A) → (Reply → Demo A) → Demo A
on_ok c fail next = act c (λ r. if is_ok r then next r else fail r)

-- CK_CHECK, where `fail` is what the caller does at its label `cleanup` with `rc = 1`.
abbrev pub ck_check : {A : Type 0} → Call → (Reply → Demo A) → (Reply → Demo A) → Demo A
ck_check c fail next = on_ok c (λ r. say fail_line >> fail r) (λ r. say ok_line >> next r)

-- DESTROY: gives the new value of the handle variable.
unfoldable pub destroy : (session handle : ℕ) → Demo ℕ
destroy session h =
    if h == ck_invalid_handle
    then ret h
    else (call (destroy_object session h) >> ret ck_invalid_handle)

-- The loop of print_hex: the bytes that are printed.
unfoldable pub hex_loop : (room len : ℕ) → List ℕ → List ℕ
hex_loop zero len buf = []
hex_loop (suc room) zero buf = []
hex_loop (suc room) (suc len) [] = []
hex_loop (suc room) (suc len) (b ∷ buf) = b ∷ hex_loop room len buf

-- print_hex: at most 48 bytes, and an ellipsis if there are more.
abbrev pub print_hex : List ℕ → ℕ → Demo Reply
print_hex buf len = say (hex_line (hex_loop 48 len buf) (ltb 48 len))
