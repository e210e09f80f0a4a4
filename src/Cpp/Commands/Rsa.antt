-- ===== src/Cpp/Commands/Rsa.antt =====
-- doRsa of cpp_app/main.cpp, by its commands.
use se05x.Base.{ℕ, [], ◌||◌, bytes_eq, if◌then◌else◌, codes}
use se05x.Cpp.Calls.{Cpp, ◌>>=◌, ◌>>◌, pure, raise, runtime_error}
use se05x.Cpp.Args.{Args, get, parse_id, parse_bits}
use se05x.Cpp.RsaKey.{
  generate, open_key, sign, verify, encrypt_bytes, decrypt_bytes, public_key_der,
}
use se05x.Cpp.Csr.{make_rsa_csr}
use se05x.Cpp.Commands.{read_whole, emit, emit_text, hash, force_erase, report, subject}

-- `genkey`, from the generation on.
unfoldable pub rsa_generate : Args → (id : ℕ) → Cpp ℕ
unfolding parse_bits generate public_key_der emit
rsa_generate a id = do
  bits ← parse_bits (get a (codes "--bits") [])
  k ← generate id bits
  d ← public_key_der k
  emit a d
  pure 0

module _ (max : ℕ) (a : Args) where
  unfoldable pub rsa_genkey : Cpp ℕ
  unfolding parse_id force_erase rsa_generate
  rsa_genkey = do id ← parse_id max a; force_erase a id; rsa_generate a id

  unfoldable pub rsa_pub : Cpp ℕ
  unfolding parse_id open_key public_key_der emit
  rsa_pub = do id ← parse_id max a; k ← open_key id; d ← public_key_der k; emit a d; pure 0

  unfoldable pub rsa_sign : Cpp ℕ
  unfolding parse_id open_key read_whole hash sign emit
  rsa_sign = do
    id ← parse_id max a
    k ← open_key id
    msg ← read_whole (get a (codes "--in") [])
    digest ← hash msg
    sig ← sign k digest
    emit a sig
    pure 0

  unfoldable pub rsa_verify : Cpp ℕ
  unfolding parse_id open_key read_whole hash verify report
  rsa_verify = do
    id ← parse_id max a
    k ← open_key id
    msg ← read_whole (get a (codes "--in") [])
    digest ← hash msg
    sig ← read_whole (get a (codes "--sig") [])
    ok ← verify k digest sig
    report ok

  unfoldable pub rsa_encrypt : Cpp ℕ
  unfolding parse_id open_key read_whole encrypt_bytes emit
  rsa_encrypt = do
    id ← parse_id max a
    k ← open_key id
    msg ← read_whole (get a (codes "--in") [])
    d ← encrypt_bytes k msg
    emit a d
    pure 0

  unfoldable pub rsa_decrypt : Cpp ℕ
  unfolding parse_id open_key read_whole decrypt_bytes emit
  rsa_decrypt = do
    id ← parse_id max a
    k ← open_key id
    msg ← read_whole (get a (codes "--in") [])
    d ← decrypt_bytes k msg
    emit a d
    pure 0

  unfoldable pub rsa_csr : Cpp ℕ
  unfolding parse_id open_key subject make_rsa_csr emit_text
  rsa_csr = do
    id ← parse_id max a
    k ← open_key id
    dn ← subject a
    pem ← make_rsa_csr k dn
    emit_text a pem
    pure 0

  unfoldable pub do_rsa : Cpp ℕ
  unfolding rsa_genkey rsa_pub rsa_sign rsa_verify rsa_encrypt rsa_decrypt rsa_csr
  do_rsa =
      let cmd = a.command in
      if bytes_eq cmd (codes "genkey") || bytes_eq cmd (codes "provision")
      then rsa_genkey
      else if bytes_eq cmd (codes "pub")
      then rsa_pub
      else if bytes_eq cmd (codes "sign")
      then rsa_sign
      else if bytes_eq cmd (codes "verify")
      then rsa_verify
      else if bytes_eq cmd (codes "encrypt")
      then rsa_encrypt
      else if bytes_eq cmd (codes "decrypt")
      then rsa_decrypt
      else if bytes_eq cmd (codes "csr")
      then rsa_csr
      else raise (runtime_error "unknown rsa command: " cmd)
