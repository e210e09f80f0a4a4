-- ===== src/Cpp/Commands/Ecc.antt =====
-- doEcc of cpp_app/main.cpp, by its commands.
use se05x.Base.{ℕ, [], ◌||◌, bytes_eq, if◌then◌else◌, codes}
use se05x.App.Sss.{sha256}
use se05x.Cpp.Calls.{Cpp, ◌>>=◌, ◌>>◌, pure, raise, runtime_error}
use se05x.Cpp.Args.{Args, get, parse_id, parse_curve}
use se05x.Cpp.EcKey.{generate, open_key, sign, verify, ecdh_secret, public_key_der}
use se05x.Cpp.Csr.{make_ec_csr}
use se05x.Cpp.Commands.{read_whole, emit, emit_text, hash, force_erase, report, subject}

-- `genkey`, from the generation on.
unfoldable pub ecc_generate : Args → (id : ℕ) → Cpp ℕ
unfolding parse_curve generate public_key_der emit
ecc_generate a id = do
  curve ← parse_curve (get a (codes "--curve") [])
  k ← generate id curve
  d ← public_key_der
  emit a d
  pure 0

module _ (max : ℕ) (a : Args) where
  unfoldable pub ecc_genkey : Cpp ℕ
  unfolding parse_id force_erase ecc_generate
  ecc_genkey = do id ← parse_id max a; force_erase a id; ecc_generate a id

  unfoldable pub ecc_pub : Cpp ℕ
  unfolding parse_id open_key public_key_der emit
  ecc_pub = do id ← parse_id max a; k ← open_key id; d ← public_key_der; emit a d; pure 0

  unfoldable pub ecc_sign : Cpp ℕ
  unfolding parse_id open_key read_whole hash sign emit
  ecc_sign = do
    id ← parse_id max a
    k ← open_key id
    msg ← read_whole (get a (codes "--in") [])
    digest ← hash msg
    sig ← sign (record k { sig_algo = sha256 }) digest
    emit a sig
    pure 0

  unfoldable pub ecc_verify : Cpp ℕ
  unfolding parse_id open_key read_whole hash verify report
  ecc_verify = do
    id ← parse_id max a
    k ← open_key id
    msg ← read_whole (get a (codes "--in") [])
    digest ← hash msg
    sig ← read_whole (get a (codes "--sig") [])
    ok ← verify (record k { sig_algo = sha256 }) digest sig
    report ok

  unfoldable pub ecc_ecdh : Cpp ℕ
  unfolding parse_id open_key read_whole ecdh_secret emit
  ecc_ecdh = do
    id ← parse_id max a
    k ← open_key id
    peer ← read_whole (get a (codes "--peer") [])
    d ← ecdh_secret k peer
    emit a d
    pure 0

  unfoldable pub ecc_csr : Cpp ℕ
  unfolding parse_id open_key subject make_ec_csr emit_text
  ecc_csr = do
    id ← parse_id max a
    k ← open_key id
    dn ← subject a
    pem ← make_ec_csr (record k { sig_algo = sha256 }) dn
    emit_text a pem
    pure 0

  unfoldable pub do_ecc : Cpp ℕ
  unfolding ecc_genkey ecc_pub ecc_sign ecc_verify ecc_ecdh ecc_csr
  do_ecc =
      let cmd = a.command in
      if bytes_eq cmd (codes "genkey") || bytes_eq cmd (codes "provision")
      then ecc_genkey
      else if bytes_eq cmd (codes "pub")
      then ecc_pub
      else if bytes_eq cmd (codes "sign")
      then ecc_sign
      else if bytes_eq cmd (codes "verify")
      then ecc_verify
      else if bytes_eq cmd (codes "ecdh")
      then ecc_ecdh
      else if bytes_eq cmd (codes "csr")
      then ecc_csr
      else raise (runtime_error "unknown ecc command: " cmd)
