-- ===== src/Cpp/Runs.antt =====
-- main of cpp_app/main.cpp, at every run: how it leaves the session and the objects, and what the
-- commands sign and verify do.
use se05x.Base.{ℕ, ◌≡◌, ◌==◌, Bool, true, false, List, Option, codes}
use se05x.Prog.{Device, run}
use se05x.Prog.Hoare.{Wp-run, after, all_honest}
use se05x.Cpp.Calls.{Text, Call}
use se05x.App.Sss.{Reply}
use se05x.Cpp.Args.{parse_args}
use se05x.Cpp.Entry.{main}
use se05x.Cpp.Watching.{world}
use se05x.Cpp.Watching.Rules.{Wp-every_run}
use se05x.Cpp.Tracing.{tracing, blank, UnlessFailed, main-Tells}
use se05x.Cpp.Tracing.Commands.{Signed, Verified, group_of, sign-Makes, verify-Makes}
use se05x.Cpp.Closing.Every.{Concludes, outside, main-Concludes}

-- If memory is not exhausted, but for the vector of the random numbers, whatever the arguments,
-- the environment, the files, and the replies of the libraries, `main` opens the session only
-- while it is closed, closes it only while it is open, and has it closed when it returns, however
-- the command ended; every call of SSS and of mbedTLS, its `mbedtls_sha256` apart, is made inside
-- the session and on objects, contexts and lists of names that are initialised for it; no result
-- is put out after a failure; at the end only key objects are set up, a list of names if a writer
-- of mbedTLS failed, and the context of the random numbers if the vector for them could not be
-- allocated; and the exit status is 1 if a call or that allocation failed that the command needs
-- or the application refused its arguments or a size, else 2 if a signature was not accepted, else
-- 0.
pub main_life :
    (d : Device Call Reply) (st : d.State) (max : ℕ) (env : Option Text) (argv : List Text)
    → Concludes false
        (run d (main max env argv) st).value
        (after world outside (run d (main max env argv) st).log)
main_life d st max env argv =
    Wp-every_run d (main max env argv) (Concludes false) outside st (main-Concludes max env argv)

-- If the command line says `ecc sign` or `rsa sign`, `mbedtls_sha256` writes 32 bytes, and SSS reports
-- the length of the signature that it writes: a run of `main` that does not return 1 returns 0, opened
-- the key of --id and no other, read the file of --in and no other, hashed its whole contents, had that
-- hash signed once, and put out the whole signature once, to the file of --out or else to stdout.
pub main-Signed :
    (d : Device Call Reply) (st : d.State) (max : ℕ) (env : Option Text) (argv : List Text)
    (rsa : Bool)
    → (parse_args argv).group ≡ group_of rsa
    → (parse_args argv).command ≡ codes "sign"
    → all_honest tracing blank (run d (main max env argv) st).log ≡ true
    → ((run d (main max env argv) st).value == 1) ≡ false
    → Signed max
        (parse_args argv)
        (run d (main max env argv) st).value
        (after tracing blank (run d (main max env argv) st).log)
main-Signed d st max env argv rsa g c h =
    let q = Signed max (parse_args argv) in
    Wp-run tracing d (main max env argv) (UnlessFailed q) blank st
      (main-Tells q max env argv blank (sign-Makes max rsa (parse_args argv) g c)) h

-- If the command line says `ecc verify` or `rsa verify`, and `mbedtls_sha256` writes 32 bytes: a run of
-- `main` that does not return 1 opened the key of --id and no other, read the file of --in and that of
-- --sig and no other, hashed the whole contents of the first, had the whole contents of the second
-- verified once as a signature of that hash, printed the answer, and returned 0 if the signature was
-- accepted and 2 if it was not.
pub main-Verified :
    (d : Device Call Reply) (st : d.State) (max : ℕ) (env : Option Text) (argv : List Text)
    (rsa : Bool)
    → (parse_args argv).group ≡ group_of rsa
    → (parse_args argv).command ≡ codes "verify"
    → all_honest tracing blank (run d (main max env argv) st).log ≡ true
    → ((run d (main max env argv) st).value == 1) ≡ false
    → Verified max
        (parse_args argv)
        (run d (main max env argv) st).value
        (after tracing blank (run d (main max env argv) st).log)
main-Verified d st max env argv rsa g c h =
    let q = Verified max (parse_args argv) in
    Wp-run tracing d (main max env argv) (UnlessFailed q) blank st
      (main-Tells q max env argv blank (verify-Makes max rsa (parse_args argv) g c)) h
