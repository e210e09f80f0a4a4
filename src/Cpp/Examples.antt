-- ===== src/Cpp/Examples.antt =====
-- A library for the C++ application, and the theorems at runs against it.
use se05x.Base.{
  true, ℕ, ◌≡◌, refl, false, List, [], ◌∷◌, none, codes, bytes_eq, length, replicate, get_or,
  if◌then◌else◌, arith,
}
use se05x.Prog.{Device, run}
use se05x.Prog.Hoare.{after}
use se05x.App.Sss
use se05x.App.Sss.{Reply, success, fail}
use se05x.Cpp.Calls.{allocate, Text, Call, sss, sha256, read_file, pure}
use se05x.Cpp.Args.{Args, parse_args, parse_id, find, starts_dashes}
use se05x.Cpp.Args.RoundTrip.{
  Token, value, forced, option, render, positionals, last_of, third_positional, parse_args-render,
}
use se05x.Cpp.Args.Numbers.{hex, parse_id-render}
use se05x.Cpp.Entry.{main}
use se05x.Cpp.Watching.{world}
use se05x.Cpp.Closing.Every.{Concludes, outside}
use se05x.Cpp.Tracing.{tracing, blank}
use se05x.Cpp.Tracing.Commands.{Signed, Verified}
use se05x.Cpp.Runs.{main_life, main-Signed, main-Verified}

abbrev wrote : List ℕ → Reply
wrote bytes = record { status = success; bytes = bytes; len = length bytes }

abbrev failed : Reply
failed = record { status = fail; bytes = []; len = 0 }

-- Everything succeeds, but that there is no file `none`.
abbrev answer_well : Call → Reply
answer_well (sss (Sss.get_random n)) = wrote (replicate n 7)
answer_well (sss (Sss.sha256_ret input)) = wrote (replicate 32 1)
answer_well (sss (Sss.sign_digest digest room)) = wrote (replicate 70 2)
answer_well (sss (Sss.get_key v room)) = wrote (replicate 60 4)
answer_well (sss (Sss.asn1_write w room)) = wrote (1 ∷ 2 ∷ [])
answer_well (sss (Sss.write_names room)) = wrote (1 ∷ 2 ∷ 3 ∷ [])
answer_well (sss (Sss.pem_write_buffer input room)) = wrote (replicate 50 5)
answer_well (sha256 input) = wrote (replicate 32 1)
answer_well (read_file path) =
    if bytes_eq path (codes "none") then failed else wrote (replicate 100 6)
answer_well _ = wrote []

abbrev se051 : Device Call Reply
se051 = record { State = Unit {0}; answer = λ s c. (answer_well c, s) }

abbrev max32 : ℕ
max32 = 4294967295

abbrev sign_tokens : List Token
sign_tokens =
    value (codes "ecc")
    ∷ value (codes "sign")
    ∷ option (codes "--id") (codes "0xEF000001")
    ∷ forced
    ∷ option (codes "--in") (codes "message")
    ∷ []

abbrev sign_line : List Text
sign_line = codes "se05x_app" ∷ render sign_tokens

abbrev genkey_line : List Text
genkey_line =
    codes "se05x_app"
    ∷ codes "ecc"
    ∷ codes "genkey"
    ∷ codes "--id"
    ∷ codes "12"
    ∷ codes "--force"
    ∷ []

abbrev unread_line : List Text
unread_line =
    codes "se05x_app"
    ∷ codes "ecc"
    ∷ codes "sign"
    ∷ codes "--id"
    ∷ codes "12"
    ∷ codes "--in"
    ∷ codes "none"
    ∷ []

abbrev csr_line : List Text
csr_line =
    codes "se05x_app"
    ∷ codes "rsa"
    ∷ codes "csr"
    ∷ codes "--id"
    ∷ codes "12"
    ∷ codes "--subject"
    ∷ codes "CN=A"
    ∷ []

-- The exit status of a command line.
abbrev exit_status : List Text → ℕ
exit_status argv = (run se051 (main max32 none argv) tt).value

sign_line_passes : exit_status sign_line ≡ 0
unfolding run main
sign_line_passes = refl

genkey_line_passes : exit_status genkey_line ≡ 0
unfolding run main
genkey_line_passes = refl

csr_line_passes : exit_status csr_line ≡ 0
unfolding run main
csr_line_passes = refl

unread_line_fails : exit_status unread_line ≡ 1
unfolding run main
unread_line_fails = refl

-- The vector of the random numbers cannot be allocated.
abbrev answer_starved : Call → Reply
answer_starved (allocate size) = failed
answer_starved c = answer_well c

abbrev starved : Device Call Reply
starved = record { State = Unit {0}; answer = λ s c. (answer_starved c, s) }

abbrev rng_line : List Text
rng_line = codes "se05x_app" ∷ codes "rng" ∷ codes "-1" ∷ []

rng_line_fails : (run starved (main max32 none rng_line) tt).value ≡ 1
unfolding run main
rng_line_fails = refl

main_life_example :
    Concludes false
      (run starved (main max32 none rng_line) tt).value
      (after world outside (run starved (main max32 none rng_line) tt).log)
main_life_example = main_life starved tt max32 none rng_line

main-Signed_example :
    Signed max32
      (parse_args sign_line)
      (run se051 (main max32 none sign_line) tt).value
      (after tracing blank (run se051 (main max32 none sign_line) tt).log)
unfolding run main
main-Signed_example = main-Signed se051 tt max32 none sign_line false refl refl refl refl

abbrev verify_line : List Text
verify_line =
    codes "se05x_app"
    ∷ codes "rsa"
    ∷ codes "verify"
    ∷ codes "--id"
    ∷ codes "12"
    ∷ codes "--in"
    ∷ codes "message"
    ∷ codes "--sig"
    ∷ codes "signature"
    ∷ []

main-Verified_example :
    Verified max32
      (parse_args verify_line)
      (run se051 (main max32 none verify_line) tt).value
      (after tracing blank (run se051 (main max32 none verify_line) tt).log)
unfolding run main
main-Verified_example = main-Verified se051 tt max32 none verify_line true refl refl refl refl

parse_args-render_example :
    ((parse_args (codes "se05x_app" ∷ render sign_tokens)).group
      ≡ get_or (positionals sign_tokens) 0 [])
    × ((parse_args (codes "se05x_app" ∷ render sign_tokens)).command
        ≡ get_or (positionals sign_tokens) 1 [])
    × ((parse_args (codes "se05x_app" ∷ render sign_tokens)).positional
        ≡ third_positional (positionals sign_tokens))
    × ((j : Text)
        → find j (parse_args (codes "se05x_app" ∷ render sign_tokens)).opt ≡ last_of j sign_tokens)
unfolding starts_dashes
parse_args-render_example =
    parse_args-render (codes "se05x_app") sign_tokens (refl, (refl, (refl, refl, (refl, refl, tt))))

parse_id-render_example :
    parse_id max32 (parse_args (codes "se05x_app" ∷ render sign_tokens)) ≡ pure 0xEF000001
unfolding starts_dashes
parse_id-render_example =
    parse_id-render max32 (codes "se05x_app") sign_tokens 0xEF000001
      (refl, (refl, (refl, refl, (refl, refl, tt)))) refl (omega arith) (omega arith)

-- Nine digits.
abbrev nine_digits : List ℕ
nine_digits = 1 ∷ 0 ∷ 0 ∷ 0 ∷ 0 ∷ 0 ∷ 0 ∷ 0 ∷ 5 ∷ []

abbrev nine_args : Args
nine_args = record {
  group = codes "ecc";
  command = codes "pub";
  positional = [];
  opt = (codes "--id", hex nine_digits) ∷ [];
}

-- With an unsigned long of 64 bits, the first of them is dropped.
drops_a_digit : parse_id 18446744073709551615 nine_args ≡ pure 5
unfolding parse_id
drops_a_digit = refl
