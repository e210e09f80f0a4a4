-- ===== src/Cpp/Tracing.antt =====
-- What a run of the C++ application opens, reads, hashes, signs, verifies and puts out.
pub mod Steps
pub mod Commands
use se05x.Base.{
  ℕ, ◌≡◌, refl, Bool, true, false, List, [], ◌∷◌, ◌==◌, length, Option, some, none, ltb,
  if◌then◌else◌,
}
use se05x.Prog.{ret, act}
use se05x.Prog.Hoare.{Watch, Wp, Wp-bind, Wp-mono, Wp-if}
use se05x.App.Sss
use se05x.App.Sss.{Reply, is_success}
use se05x.Cpp.Calls.{
  Text, Call, sss, sha256, read_file, write_file, print_hex, print_verdict, session_close, Cpp, ok,
  throw,
}
use se05x.Cpp.Args.{Args, is_empty, parse_args}
use se05x.Cpp.Entry.{dispatch, caught, with_session, run_args, main}
use se05x.Cpp.Makes.{Returns, Makes}

-- Each list has the last event first. `opened`: the ids of the keys. `reads`: files with their
-- contents. `hashes`: inputs with their hashes. `signatures`: digests with their signatures. `checks`:
-- digests and signatures with the answer. `outputs`: the file, or stdout in hexadecimal, with what
-- was put out. `verdicts`: what was printed by `verify`.
pub record Trace : Type 0 where
  pub opened : List ℕ
  pub reads : List (Text × List ℕ)
  pub hashes : List (List ℕ × List ℕ)
  pub signatures : List (List ℕ × List ℕ)
  pub checks : List ((List ℕ × List ℕ) × Bool)
  pub outputs : List (Option Text × List ℕ)
  pub verdicts : List Bool

abbrev pub blank : Trace
blank = record {
  opened = [];
  reads = [];
  hashes = [];
  signatures = [];
  checks = [];
  outputs = [];
  verdicts = [];
}

abbrev pub trace : Trace → Call → Reply → Trace
trace m (sss (Sss.get_handle v id)) r = record m { opened = id ∷ m.opened }
trace m (read_file path) r = record m { reads = (path, r.bytes) ∷ m.reads }
trace m (sha256 input) r = record m { hashes = (input, r.bytes) ∷ m.hashes }
trace m (sss (Sss.sign_digest digest room)) r = record m {
  signatures = (digest, r.bytes) ∷ m.signatures;
}
trace m (sss (Sss.verify_digest digest signature)) r = record m {
  checks = ((digest, signature), is_success r) ∷ m.checks;
}
trace m (write_file path d) r = record m { outputs = (some path, d) ∷ m.outputs }
trace m (print_hex d) r = record m { outputs = (none, d) ∷ m.outputs }
trace m (print_verdict b) r = record m { verdicts = b ∷ m.verdicts }
trace m _ r = m

-- The documented behaviour: a hash has 32 bytes, and a signature has the length that is reported.
abbrev pub keeps_word : Call → Reply → Bool
keeps_word (sha256 input) r = length r.bytes == 32
keeps_word (sss (Sss.sign_digest digest room)) r = r.len == length r.bytes
keeps_word _ r = true

abbrev pub tracing : Watch Call Reply Trace
tracing = record { step = trace; honest = λ m c r. keeps_word c r }

-- If the exit status is not 1, `q` holds.
abbrev pub UnlessFailed : (ℕ → Trace → Type 0) → ℕ → Trace → Type 0
UnlessFailed q rc m = (rc == 1) ≡ false → q rc m

module _ (q : ℕ → Trace → Type 0) where
  failure : (m : Trace) → UnlessFailed q 1 m
  failure m h = cc

  caught-Tells :
      (p : Cpp ℕ) (m : Trace)
      → Wp tracing p (Returns tracing q) m
      → Wp tracing (caught p) (UnlessFailed q) m
  caught-Tells (ret (ok rc)) m h = λ _. h
  caught-Tells (ret (throw e)) m h = λ r _. failure m
  caught-Tells (act c k) m h = λ r g. caught-Tells (k r) _ (h r g)

  with_session-Tells :
      (max : ℕ) (a : Args) (m : Trace)
      → Makes tracing (dispatch max a) q m
      → Wp tracing (with_session max a) (UnlessFailed q) m
  unfolding with_session
  with_session-Tells max a m h =
      Wp-bind tracing (caught (dispatch max a)) (λ rc. act session_close (λ _. ret rc))
        (UnlessFailed q) m
        (Wp-mono tracing (caught (dispatch max a)) (UnlessFailed q) _ m (λ rc m' h r _. h)
          (caught-Tells (dispatch max a) m h.every))

  run_args-Tells :
      (max : ℕ) (env : Option Text) (a : Args) (m : Trace)
      → Makes tracing (dispatch max a) q m
      → Wp tracing (run_args max env a) (UnlessFailed q) m
  unfolding run_args
  run_args-Tells max env a m h =
      Wp-if tracing (is_empty a.group) _ _ (UnlessFailed q) m (λ _ r _. failure m)
        (λ _ r _.
          Wp-if tracing (is_success r) _ _ (UnlessFailed q) m
            (λ _ i _.
              Wp-if tracing (is_success i) _ _ (UnlessFailed q) m
                (λ _. with_session-Tells max a m h) (λ _ _ _ _ _. failure m))
            (λ _ _ _. failure m))

  -- What the command does, `main` does.
  pub main-Tells :
      (max : ℕ) (env : Option Text) (argv : List Text) (m : Trace)
      → Makes tracing (dispatch max (parse_args argv)) q m
      → Wp tracing (main max env argv) (UnlessFailed q) m
  unfolding main
  main-Tells max env argv m h =
      Wp-if tracing (ltb (length argv) 2) _ _ (UnlessFailed q) m (λ _ r _. failure m)
        (λ _. run_args-Tells max env (parse_args argv) m h)
