-- ===== src/Cpp/Watching.antt =====
-- What a run of the C++ application does to the session, to the objects and contexts in it, and to
-- its output.
pub mod Rules
use se05x.Base.{
  ℕ, ◌≡◌, String, Bool, true, false, not, ◌&&◌, ◌||◌, List, [], ◌∷◌, ◌==◌, if◌then◌else◌,
}
use text.Mathlib.Text.{◌==◌ as ◌is◌}
use se05x.Prog.Hoare.{Watch, Wp}
use se05x.App.Sss
use se05x.App.Sss.{Reply, Init, rng_context, obj, is_success}
use se05x.App.Watching.{Open, is_object, is_names, is_ready, track, is_write}
use se05x.Cpp.Calls.{
  allocate, allocation_error, Thrown, crypto_error, runtime_error, Call, sss, boot_open, store_init,
  session_close, read_file, write_file, print_hex, print_text, print_verdict, print_usage,
  print_error, Result, ok, throw, Cpp,
}

-- `misused`: a call of SSS or mbedTLS was made outside of the session, or on a variable that was not
-- initialised for it; the session was opened twice or closed twice; or something was put out after
-- a failure. `failed`: a call failed that the command needs. `rejected`: a signature was not
-- accepted. `refused`: the application itself refused its arguments or a size. `abandoned`: a
-- writer of mbedTLS failed. `exhausted`: a vector could not be allocated.
pub record World : Type 0 where
  pub session : Bool
  pub live : Open
  pub misused : Bool
  pub failed : Bool
  pub rejected : Bool
  pub refused : Bool
  pub abandoned : Bool
  pub exhausted : Bool

-- In the session nothing has gone wrong.
abbrev pub inside : Open → World
inside l = record {
  session = true;
  live = l;
  misused = false;
  failed = false;
  rejected = false;
  refused = false;
  abandoned = false;
  exhausted = false;
}

-- The errors that the application raises by itself: of the arguments, and of the size of a request.
abbrev pub is_refusal : Thrown → Bool
is_refusal (runtime_error message detail) =
    not (message is "cannot open input file: " || message is "cannot open output file: ")
is_refusal (crypto_error message detail status) =
    message is "CSR buffer too small for public key" || message is "CSR buffer too small for CRI"
is_refusal allocation_error = false

-- Only the erasure of an old key may fail, and a verification may reject.
abbrev pub must : Call → Bool
must (sss (Sss.init v i)) = not (v == obj)
must (sss (Sss.get_handle v id)) = not (v == obj)
must (sss (Sss.erase_key v)) = false
must (sss (Sss.free v)) = false
must (sss (Sss.verify_digest digest signature)) = false
must (sss c) = true
must (boot_open port) = true
must store_init = true
must (allocate size) = true
must (read_file path) = true
must (write_file path d) = true
must _ = false

abbrev pub permits : World → Call → Bool
permits m (sss c) = m.session && is_ready c m.live
permits m (boot_open port) = not m.session
permits m store_init = m.session
permits m session_close = m.session
permits m (write_file path d) = not m.failed
permits m (print_hex d) = not m.failed
permits m (print_text t) = not m.failed
permits m (print_verdict b) = not m.failed
permits m _ = true

abbrev pub opened : Bool → Call → (good : Bool) → Bool
opened s (boot_open port) good = good
opened s session_close good = false
opened s _ good = s

abbrev pub lives : Open → Call → (good : Bool) → Open
lives l (sss c) good = track l c good
lives l _ good = l

abbrev pub rejects : Call → Bool
rejects (sss (Sss.verify_digest digest signature)) = true
rejects _ = false

abbrev pub refuses : Call → Bool
refuses print_usage = true
refuses (print_error e) = is_refusal e
refuses _ = false

abbrev pub writes : Call → Bool
writes (sss c) = is_write c
writes _ = false

abbrev pub allocates : Call → Bool
allocates (allocate size) = true
allocates _ = false

abbrev pub effect : World → Call → (good : Bool) → World
effect m c good = record {
  session = opened m.session c good;
  live = lives m.live c good;
  misused = not (permits m c) || m.misused;
  failed = (must c && not good) || m.failed;
  rejected = (rejects c && not good) || m.rejected;
  refused = refuses c || m.refused;
  abandoned = (writes c && not good) || m.abandoned;
  exhausted = (allocates c && not good) || m.exhausted;
}

abbrev pub world : Watch Call Reply World
world = record { step = λ m c r. effect m c (is_success r); honest = λ m c r. true }

abbrev pub is_rng : Init → Bool
is_rng rng_context = true
is_rng _ = false

-- Only key objects are still set up; a list of names as well, if a writer failed; the context of the
-- random numbers, if the vector for them could not be allocated.
abbrev pub settled : Open → (abandoned exhausted : Bool) → Bool
settled [] abandoned exhausted = true
settled ((v, i) ∷ l) abandoned exhausted =
    (is_object i || ((is_names i && abandoned) || (is_rng i && exhausted)))
    && settled l abandoned exhausted

-- A command was given up, by `e`.
abbrev pub Stopped : Thrown → World → Type 0
Stopped e m =
    (m.session ≡ true)
    × (m.misused ≡ false)
    × (m.rejected ≡ false)
    × (m.refused ≡ false)
    × (settled m.live m.abandoned m.exhausted ≡ true)
    × ((m.failed || is_refusal e) ≡ true)

-- The command goes on to `Q`, or is given up.
abbrev pub Ends : {A : Type 0} → (A → World → Type 0) → Result A → World → Type 0
Ends q (ok a) m = q a m
Ends q (throw e) m = Stopped e m

-- Every run of `p` from `m` goes on to `q`, or is given up.
pub record Does {A : Type 0} (p : Cpp A) (q : A → World → Type 0) (m : World) : Type 0 where
  pub every : Wp world p (Ends q) m

-- With `l` set up, `p` leaves `l'` set up, or is given up.
abbrev pub Runs : {A : Type 0} → Cpp A → (l l' : Open) → Type 0
Runs p l l' = Does p (λ _ m. m ≡ inside l') (inside l)
