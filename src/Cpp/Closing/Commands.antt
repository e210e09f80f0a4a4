-- ===== src/Cpp/Closing/Commands.antt =====
-- What the commands of cpp_app/main.cpp leave set up, and the code that they return.
pub mod Ecc
pub mod Rsa
use se05x.Base.{
  ℕ, ◌≡◌, refl, sym, subst, Bool, true, false, not, ◌||◌, ◌⊎◌, inl, inr, List, [], ◌∷◌,
  if◌then◌else◌, bytes_eq,
}
use se05x.App.Watching.{Open}
use se05x.Cpp.Calls.{
  Text, Cpp, ◌>>◌, pure, sha256, read_file, write_file, print_hex, print_text, print_verdict,
}
use se05x.Cpp.Args.{
  Args, EcCurve, get, flag, force, is_empty, strtoul, parse_id, parse_curve, parse_bits,
}
use se05x.Base.{codes}
use se05x.Cpp.Commands.{
  read_whole, write_whole, emit, emit_text, hash, do_rng, force_erase, report, subject,
}
use se05x.Cpp.Watching.{World, inside, settled, Stopped, Does, Runs}
use se05x.Cpp.Watching.Rules.{
  Does-then, Runs-then, Does-pure, Does-call, Does-if, Does-branch, Does-raise,
}
use se05x.Cpp.Closing.{with_key, used, judged, Erased, erase_key_by_id-Does, get_random_bytes-Runs}

-- A command has run to its end: nothing has failed, only keys are set up, and it returns 0, or 2 if
-- the signature was rejected, or 1 for what it does not know.
abbrev pub Finishes : ℕ → World → Type 0
Finishes rc m =
    (m.session ≡ true)
    × (m.misused ≡ false)
    × (m.failed ≡ false)
    × (settled m.live m.abandoned m.exhausted ≡ true)
    × (rc ≡ (if m.refused then 1 else if m.rejected then 2 else 0))

-- The arguments alone decide.
pub parse_id-Runs : (max : ℕ) (a : Args) → Runs (parse_id max a) [] []
unfolding parse_id
parse_id-Runs max a =
    Does-if (is_empty (get a (codes "--id") []))
      (λ _. Does-raise (refl, refl, refl, refl, refl, refl)) (λ _. Does-pure refl)

-- Nothing but the text decides, and nothing is called.
parse_curve_any : {l : Open} (s : Text) → settled l false false ≡ true → Runs (parse_curve s) l l
unfolding parse_curve
parse_curve_any s keys =
    Does-if (is_empty s || bytes_eq s (codes "p256")) (λ _. Does-pure refl)
      λ _.
        Does-if (bytes_eq s (codes "p384")) (λ _. Does-pure refl)
          λ _.
            Does-if (bytes_eq s (codes "p521")) (λ _. Does-pure refl)
              λ _. Does-raise (refl, refl, refl, refl, keys, refl)

pub parse_curve-Runs : (b : Bool) (s : Text) → Runs (parse_curve s) (used b) (used b)
parse_curve-Runs true s = parse_curve_any s refl
parse_curve-Runs false s = parse_curve_any s refl

-- Nothing but the text decides, and nothing is called.
parse_bits_any : {l : Open} (s : Text) → settled l false false ≡ true → Runs (parse_bits s) l l
unfolding parse_bits
parse_bits_any s keys =
    Does-if (is_empty s || bytes_eq s (codes "2048")) (λ _. Does-pure refl)
      λ _.
        Does-if (bytes_eq s (codes "3072")) (λ _. Does-pure refl)
          λ _.
            Does-if (bytes_eq s (codes "4096")) (λ _. Does-pure refl)
              λ _. Does-raise (refl, refl, refl, refl, keys, refl)

pub parse_bits-Runs : (b : Bool) (s : Text) → Runs (parse_bits s) (used b) (used b)
parse_bits-Runs true s = parse_bits_any s refl
parse_bits-Runs false s = parse_bits_any s refl

pub subject-Runs : (a : Args) → Runs (subject a) (with_key []) (with_key [])
unfolding subject
subject-Runs a =
    Does-if (is_empty (get a (codes "--subject") []))
      (λ _. Does-raise (refl, refl, refl, refl, refl, refl)) (λ _. Does-pure refl)

-- Files and output, with only keys set up.
module _ (l : Open) (keys : settled l false false ≡ true) where
  pub read_whole-Runs : (path : Text) → Runs (read_whole path) l l
  unfolding read_whole
  read_whole-Runs path =
      Does-branch (read_file path) _ _ (λ r. Does-pure refl)
        (λ r. Does-raise (refl, refl, refl, refl, keys, refl))

  write_whole-Runs : (path : Text) (d : List ℕ) → Runs (write_whole path d) l l
  unfolding write_whole
  write_whole-Runs path d =
      Does-branch (write_file path d) _ _ (λ r. Does-pure refl)
        (λ r. Does-raise (refl, refl, refl, refl, keys, refl))

  pub emit-Runs : (a : Args) (d : List ℕ) → Runs (emit a d) l l
  unfolding emit
  emit-Runs a d =
      let out = get a (codes "--out") [] in
      Does-if (is_empty out) (λ _. Does-call (print_hex d) _ λ r. Does-pure refl)
        (λ _. write_whole-Runs out d)

  pub emit_text-Runs : (a : Args) (t : Text) → Runs (emit_text a t) l l
  unfolding emit_text
  emit_text-Runs a t =
      let out = get a (codes "--out") [] in
      Does-if (is_empty out) (λ _. Does-call (print_text t) _ λ r. Does-pure refl)
        (λ _. write_whole-Runs out t)

  pub hash-Runs : (msg : List ℕ) → Runs (hash msg) l l
  unfolding hash
  hash-Runs msg = Does-call (sha256 msg) _ λ r. Does-pure refl

  -- The end of a command that puts out its result.
  pub emitted : (a : Args) (d : List ℕ) → Does (emit a d >> pure 0) Finishes (inside l)
  emitted a d = Runs-then (emit-Runs a d) λ _. Does-pure (refl, refl, refl, keys, refl)

pub with_key_emitted :
    (b : Bool) (a : Args) (d : List ℕ)
    → Does (emit a d >> pure 0) Finishes (inside (with_key (used b)))
with_key_emitted true a d = emitted (with_key (used true)) refl a d
with_key_emitted false a d = emitted (with_key (used false)) refl a d

pub force_erase-Does : (a : Args) (id : ℕ) → Does (force_erase a id) (λ _. Erased) (inside [])
unfolding force_erase
force_erase-Does a id =
    Does-if (flag a force) (λ _. erase_key_by_id-Does id) (λ _. Does-pure (inl refl))

-- What follows an erasure holds with and without the object of it.
pub Erased-cases :
    {A : Type 0} {p : Cpp A} {q : A → World → Type 0}
    → ((b : Bool) → Does p q (inside (used b)))
    → (m : World) → Erased m
    → Does p q m
Erased-cases {p} {q} h m (inl e) = subst (Does p q) (sym e) (h false)
Erased-cases {p} {q} h m (inr e) = subst (Does p q) (sym e) (h true)

report-Does : (b : Bool) → Does (report b) Finishes (judged b)
unfolding report
report-Does true = Does-call (print_verdict true) _ λ r. Does-pure (refl, refl, refl, refl, refl)
report-Does false = Does-call (print_verdict false) _ λ r. Does-pure (refl, refl, refl, refl, refl)

pub reported : (b : Bool) (m : World) → m ≡ judged b → Does (report b) Finishes m
reported b m e = subst (Does (report b) Finishes) (sym e) (report-Does b)

pub do_rng-Does : (max : ℕ) (a : Args) → Does (do_rng max a) Finishes (inside [])
unfolding do_rng
do_rng-Does max a =
    Does-if (is_empty a.positional) (λ _. Does-raise (refl, refl, refl, refl, refl, refl))
      λ _. Runs-then (get_random_bytes-Runs (strtoul max a.positional)) λ d. emitted [] refl a d
