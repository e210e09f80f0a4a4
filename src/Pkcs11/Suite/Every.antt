-- ===== src/Pkcs11/Suite/Every.antt =====
-- The loop of `main` over the demos: all of them run, whatever the ones before returned.
use se05x.Base.{
  ℕ, ◌≡◌, refl, Bool, true, false, not, ◌||◌, List, [], ◌∷◌, ◌++◌, arith, ◌==◌, if◌then◌else◌, ◌∙◌,
  ap,
}
use se05x.Prog.{Device, Outcome, run, run-bind, ret, ◌>>=◌, ◌>>◌}
use se05x.Pkcs11.Cryptoki.{demo_failed_line, Call, print, Reply, Demo, say}
use se05x.Pkcs11.Suite.{settle, run_all}

abbrev pub any_nonzero : List ℕ → Bool
any_nonzero [] = false
any_nonzero (c ∷ cs) = not (c == 0) || any_nonzero cs

abbrev pub exit_status : (rc : ℕ) → List ℕ → ℕ
exit_status rc codes = if any_nonzero codes then 1 else rc

exit_status-cons :
    (c rc : ℕ) (codes : List ℕ)
    → exit_status (if c == 0 then rc else 1) codes ≡ exit_status rc (c ∷ codes)
exit_status-cons c rc codes = ground arith

-- Calls, and what came after them.
abbrev pub prefixed :
    {A S : Type 0} → List (Call × Reply) → Outcome Call Reply A S → Outcome Call Reply A S
prefixed t o = record { value = o.value; log = t ++ o.log; state = o.state }

module _ (d : Device Call Reply) (s : ℕ) where
  -- The line that says that a demo failed, if it did, and the library after it.
  abbrev pub reported : (passed : Bool) → d.State → List (Call × Reply) × d.State
  reported true st = ([], st)
  reported false st =
      let (r, st') = d.answer st (print demo_failed_line) in ((print demo_failed_line, r) ∷ [], st')

  -- Every demo is run to its end, each where the one before and its line have left the library: what
  -- they return, all their calls, and the library at the end.
  pub in_turn : List (ℕ → Demo ℕ) → d.State → Outcome Call Reply (List ℕ) d.State
  in_turn [] st = record { value = []; log = []; state = st }
  in_turn (p ∷ ps) st =
      let o = run d (p s) st in
      let (line, st') = reported (o.value == 0) o.state in
      let rest = in_turn ps st' in
      record { value = o.value ∷ rest.value; log = o.log ++ (line ++ rest.log); state = rest.state }

  -- The return codes are put together.
  abbrev pub concluded :
      (rc : ℕ) → Outcome Call Reply (List ℕ) d.State → Outcome Call Reply ℕ d.State
  concluded rc o = record { value = exit_status rc o.value; log = o.log; state = o.state }

  settle-run :
      (b : Bool) (rc : ℕ) (f : ℕ → Demo ℕ) (st : d.State)
      → run d ((if b then ret rc else (say demo_failed_line >> ret 1)) >>= f) st
        ≡ prefixed (reported b st).0 (run d (f (if b then rc else 1)) (reported b st).1)
  unfolding run
  settle-run true rc f st = refl
  settle-run false rc f st = refl

  pub run_all-in_turn :
      (ps : List (ℕ → Demo ℕ)) (rc : ℕ) (st : d.State)
      → run d (run_all s ps rc) st ≡ concluded rc (in_turn ps st)
  unfolding run_all run in_turn
  run_all-in_turn [] rc st = refl
  run_all-in_turn (p ∷ ps) rc st =
      let o = run d (p s) st in
      let b = o.value == 0 in
      let (line, st') = reported b o.state in
      let rest = in_turn ps st' in
      let put : ℕ → Outcome Call Reply ℕ d.State =
        λ n. record { value = n; log = o.log ++ (line ++ rest.log); state = rest.state } in
      run-bind d (p s) (λ r. settle r rc >>= λ rc. run_all s ps rc) st
      ∙ ap (prefixed o.log) (settle-run b rc (run_all s ps) o.state)
      ∙ ap (λ q. prefixed o.log (prefixed line q)) (run_all-in_turn ps (if b then rc else 1) st')
      ∙ ap put (exit_status-cons o.value rc rest.value)

-- The loop of `main` over a list of demos makes exactly the calls of all the demos, each run to its end
-- where the one before has left the library, with a line after each that returned a code other than 0;
-- it leaves the library where the last one does; and its `rc` is 1 if some demo returned a code other
-- than 0, and 0 otherwise. It does not stop at a failure.
pub run_all_exit_status :
    (d : Device Call Reply) (s : ℕ) (ps : List (ℕ → Demo ℕ)) (st : d.State)
    → run d (run_all s ps 0) st ≡ record {
      value = if any_nonzero (in_turn d s ps st).value then 1 else 0;
      log = (in_turn d s ps st).log;
      state = (in_turn d s ps st).state;
    }
run_all_exit_status d s ps st = run_all-in_turn d s ps 0 st
