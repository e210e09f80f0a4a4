-- ===== src/Cpp/Closing/Every.antt =====
-- main of cpp_app/main.cpp closes the session, and what it returns, against every library.
use se05x.Base.{
  ℕ, ◌≡◌, refl, Bool, true, false, ◌||◌, List, [], codes, bytes_eq, ltb, length, if◌then◌else◌,
  Option, arith,
}
use se05x.Prog.{ret, act}
use se05x.Prog.Hoare.{Wp, Wp-bind, Wp-mono, Wp-if}
use se05x.App.Sss.{is_success}
use se05x.Cpp.Calls.{
  Text, Cpp, ok, throw, Thrown, boot_open, store_init, session_close, print_usage, print_error,
}
use se05x.Cpp.Args.{Args, is_empty, parse_args}
use se05x.Cpp.Entry.{dispatch, caught, with_session, port_name, run_args, main}
use se05x.Cpp.Watching.{World, world, inside, effect, settled, Stopped, Ends, Does}
use se05x.Cpp.Watching.Rules.{Wp-branch, Does-if, Does-call, Does-pure}
use se05x.Cpp.Closing.Commands.{Finishes, do_rng-Does}
use se05x.Cpp.Closing.Commands.Ecc.{do_ecc-Does}
use se05x.Cpp.Closing.Commands.Rsa.{do_rsa-Does}

-- The exit status that a run deserves.
abbrev pub status : World → ℕ
status m = if m.failed || m.refused then 1 else if m.rejected then 2 else 0

-- No session, nothing set up.
abbrev pub outside : World
outside = record (inside []) { session = false }

-- The session is in the state `s`, nothing was misused, and only key objects are set up, or a list of
-- names as well if a writer failed; the status is the one deserved.
abbrev pub Concludes : (s : Bool) → ℕ → World → Type 0
Concludes s rc m =
    (m.session ≡ s)
    × (m.misused ≡ false)
    × (settled m.live m.abandoned m.exhausted ≡ true)
    × (rc ≡ status m)

dispatch-Does : (max : ℕ) (a : Args) → Does (dispatch max a) Finishes (inside [])
unfolding dispatch
dispatch-Does max a =
    Does-if (bytes_eq a.group (codes "rng")) (λ _. do_rng-Does max a)
      λ _.
        Does-if (bytes_eq a.group (codes "ecc")) (λ _. do_ecc-Does max a)
          λ _.
            Does-if (bytes_eq a.group (codes "rsa")) (λ _. do_rsa-Does max a)
              λ _. Does-call print_usage _ λ r. Does-pure (refl, refl, refl, refl, refl)

finished : (rc : ℕ) (m : World) → Finishes rc m → Concludes true rc m
finished rc m h = ground arith

complained :
    (e : Thrown) (m : World) (b : Bool)
    → Stopped e m
    → Concludes true 1 (effect m (print_error e) b)
complained e m b h = ground arith

caught-Concludes :
    (p : Cpp ℕ) (m : World) → Wp world p (Ends Finishes) m → Wp world (caught p) (Concludes true) m
caught-Concludes (ret (ok rc)) m h = finished rc m h
caught-Concludes (ret (throw e)) m h = λ r _. complained e m (is_success r) h
caught-Concludes (act c k) m h = λ r g. caught-Concludes (k r) _ (h r g)

closed :
    (rc : ℕ) (m : World) (b : Bool)
    → Concludes true rc m
    → Concludes false rc (effect m session_close b)
closed rc m b h = ground arith

with_session-Concludes :
    (max : ℕ) (a : Args) → Wp world (with_session max a) (Concludes false) (inside [])
unfolding with_session
with_session-Concludes max a =
    Wp-bind world (caught (dispatch max a)) (λ rc. act session_close (λ _. ret rc))
      (Concludes false) (inside [])
      (Wp-mono world (caught (dispatch max a)) (Concludes true) _ (inside [])
        (λ rc m h r _. closed rc m (is_success r) h)
        (caught-Concludes (dispatch max a) (inside []) (dispatch-Does max a).every))

run_args-Concludes :
    (max : ℕ) (env : Option Text) (a : Args)
    → Wp world (run_args max env a) (Concludes false) outside
unfolding run_args
run_args-Concludes max env a =
    Wp-if world (is_empty a.group) _ _ (Concludes false) outside (λ _ r _. (refl, refl, refl, refl))
      λ _.
        Wp-branch (boot_open (port_name a env)) _ _ (Concludes false) outside
          (λ r.
            Wp-branch store_init _ _ (Concludes false) (inside [])
              (λ i. with_session-Concludes max a) (λ i _ _ _ _. (refl, refl, refl, refl)))
          (λ r _ _. (refl, refl, refl, refl))

pub main-Concludes :
    (max : ℕ) (env : Option Text) (argv : List Text)
    → Wp world (main max env argv) (Concludes false) outside
unfolding main
main-Concludes max env argv =
    Wp-if world (ltb (length argv) 2) _ _ (Concludes false) outside
      (λ _ r _. (refl, refl, refl, refl)) (λ _. run_args-Concludes max env (parse_args argv))
