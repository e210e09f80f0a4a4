-- ===== src/Cpp/Entry.antt =====
-- main of cpp_app/main.cpp.
use se05x.Base.{ℕ, List, [], ltb, length, bytes_eq, if◌then◌else◌, codes, Option, some}
use se05x.Prog
use se05x.Prog.{Prog, ret, act}
use se05x.App.Sss.{Reply, is_success}
use se05x.Cpp.Calls.{
  Text, Call, Cpp, ok, throw, pure, call, ◌>>◌, boot_open, store_init, session_close, print_usage,
  print_error, print_boot_error,
}
use se05x.Cpp.Args.{Args, get, is_empty, parse_args}
use se05x.Cpp.Commands.{do_rng}
use se05x.Cpp.Commands.Ecc.{do_ecc}
use se05x.Cpp.Commands.Rsa.{do_rsa}

abbrev pub Main : Type 0
Main = Prog Call Reply ℕ

-- The body of the try block.
unfoldable pub dispatch : (max : ℕ) → Args → Cpp ℕ
unfolding do_rng do_ecc do_rsa
dispatch max a =
    if bytes_eq a.group (codes "rng")
    then do_rng max a
    else if bytes_eq a.group (codes "ecc")
    then do_ecc max a
    else if bytes_eq a.group (codes "rsa")
    then do_rsa max a
    else call print_usage >> pure 1

-- try { rc = ... } catch (const std::exception &e) { ...; rc = 1; }
abbrev pub caught : Cpp ℕ → Main
caught (ret (ok rc)) = ret rc
caught (ret (throw e)) = act (print_error e) (λ _. ret 1)
caught (act c k) = act c (λ r. caught (k r))

-- From the opened session on.
unfoldable pub with_session : (max : ℕ) → Args → Main
unfolding dispatch
with_session max a = Prog.◌>>=◌ (caught (dispatch max a)) λ rc. act session_close λ _. ret rc

-- --port, or else the environment variable.
unfoldable pub port_name : Args → (env : Option Text) → Option Text
unfolding get
port_name a env = let port = get a (codes "--port") [] in if is_empty port then env else some port

-- main after the parser: `env` is EX_SSS_BOOT_SSS_PORT.
unfoldable pub run_args : (max : ℕ) (env : Option Text) → Args → Main
unfolding port_name with_session
run_args max env a =
    if is_empty a.group
    then act print_usage (λ _. ret 1)
    else act (boot_open (port_name a env)) λ r.
      if is_success r
      then act store_init (λ i.
        if is_success i
        then with_session max a
        else act (print_boot_error i.status) (λ _. act session_close (λ _. ret 1)))
      else act (print_boot_error r.status) (λ _. ret 1)

unfoldable pub main : (max : ℕ) (env : Option Text) (argv : List Text) → Main
unfolding run_args parse_args
main max env argv =
    if ltb (length argv) 2 then act print_usage (λ _. ret 1) else run_args max env (parse_args argv)
