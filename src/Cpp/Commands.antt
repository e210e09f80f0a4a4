-- ===== src/Cpp/Commands.antt =====
-- The subcommands of cpp_app/main.cpp. `max` is ULONG_MAX, which strtoul clamps to.
pub mod Ecc
pub mod Rsa
use se05x.Base.{ℕ, Bool, true, false, List, [], ◌||◌, bytes_eq, if◌then◌else◌, codes}
use se05x.Prog.{ret, act}
use se05x.App.Sss.{sha256, is_success}
use se05x.Cpp.Calls.{
  Text, Cpp, ◌>>=◌, ◌>>◌, pure, raise, swallow, call, runtime_error, resize, read_file, write_file,
  print_hex, print_text, print_verdict,
}
use se05x.Cpp.Calls
use se05x.Cpp.Args.{Args, get, flag, is_empty, force, parse_id, parse_curve, parse_bits, strtoul}
use se05x.Cpp.Session.{erase_key_by_id, get_random_bytes}
use se05x.Cpp.EcKey
use se05x.Cpp.RsaKey
use se05x.Cpp.Csr.{make_ec_csr, make_rsa_csr}

-- readFile
unfoldable pub read_whole : (path : Text) → Cpp (List ℕ)
read_whole path = act (read_file path) λ r.
    if is_success r then pure r.bytes else raise (runtime_error "cannot open input file: " path)

-- writeFile
unfoldable pub write_whole : (path : Text) → List ℕ → Cpp (Unit {0})
write_whole path d =
    act (write_file path d)
      λ r. if is_success r then pure tt else raise (runtime_error "cannot open output file: " path)

unfoldable pub emit : Args → List ℕ → Cpp (Unit {0})
unfolding get write_whole
emit a d =
    let out = get a (codes "--out") [] in
    if is_empty out then call (print_hex d) >> pure tt else write_whole out d

unfoldable pub emit_text : Args → Text → Cpp (Unit {0})
unfolding get write_whole
emit_text a text =
    let out = get a (codes "--out") [] in
    if is_empty out then call (print_text text) >> pure tt else write_whole out text

-- sha256: the result of mbedtls_sha256 is not looked at.
unfoldable pub hash : List ℕ → Cpp (List ℕ)
hash msg = do r ← call (Calls.sha256 msg); pure (resize 32 r.bytes)

unfoldable pub do_rng : (max : ℕ) → Args → Cpp ℕ
unfolding strtoul get_random_bytes emit
do_rng max a =
    if is_empty a.positional
    then raise (runtime_error "usage: rng <nbytes>" [])
    else (do d ← get_random_bytes (strtoul max a.positional); emit a d; pure 0)

-- if (a.flag("--force")) { try { eraseKey(s, id); } catch (...) {} }
unfoldable pub force_erase : Args → (id : ℕ) → Cpp (Unit {0})
unfolding flag erase_key_by_id
force_erase a id = if flag a force then swallow (erase_key_by_id id) else pure tt

-- The end of `verify`.
unfoldable pub report : (ok : Bool) → Cpp ℕ
report ok = call (print_verdict ok) >> pure (if ok then 0 else 2)

-- The subject of a request.
unfoldable pub subject : Args → Cpp Text
unfolding get
subject a =
    let dn = get a (codes "--subject") [] in
    if is_empty dn then raise (runtime_error "--subject is required" []) else pure dn
