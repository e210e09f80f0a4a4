-- ===== src/Cpp/Tracing/Steps.antt =====
-- What the functions that `sign` and `verify` use leave in the trace.
use se05x.Base.{
  ℕ, ◌≡◌, refl, sym, ap, subst, ◌/◌, ◌%◌, ◌^◌, ◌==◌, ==_eq, Bool, true, List, [], ◌∷◌, ◌++◌, length,
  take, take-append, replicate, Option, some, none, codes, if◌then◌else◌,
}
use se05x.App.Sss.{
  is_success, object, asym, key_pair, asymmetric_context, init, free, get_handle, sign_digest,
  verify_digest, mode_sign, mode_verify, rsassa_pkcs1_v1_5_sha256,
}
use se05x.Cpp.Calls.{
  Text, Cpp, sss, sha256, read_file, write_file, print_hex, print_verdict, resize,
}
use se05x.Cpp.Args.{Args, is_empty, get, strtoul, parse_id}
use se05x.Cpp.Session.{open_handle}
use se05x.Cpp.EcKey
use se05x.Cpp.EcKey.{EcKey}
use se05x.Cpp.RsaKey
use se05x.Cpp.RsaKey.{RsaKey}
use se05x.Cpp.Commands.{read_whole, write_whole, emit, hash, report}
use se05x.Cpp.Makes.{
  Makes, Yields, Makes-then, Makes-pure, Makes-raise, Makes-if, Makes-call, Makes-step, check-Makes,
  check_after-Makes, as_vector,
}
use se05x.Cpp.Tracing.{Trace, tracing}

-- The state becomes what `g` makes of the value.
abbrev pub Becomes : {A : Type 0} → Cpp A → (A → Trace) → Trace → Type 0
Becomes p g m = Makes tracing p (λ a m'. m' ≡ g a) m

-- The id that the command line gives.
abbrev pub given_id : (max : ℕ) → Args → ℕ
given_id max a = strtoul max (get a (codes "--id") []) % 2 ^ 32

-- Where a result goes: the file of --out, or stdout.
abbrev pub destination : Args → Option Text
destination a = let out = get a (codes "--out") [] in if is_empty out then none else some out

pub parse_id-Yields :
    {m : Trace} (max : ℕ) (a : Args) → Yields tracing (parse_id max a) (λ id. id ≡ given_id max a) m
unfolding parse_id
parse_id-Yields max a =
    Makes-if tracing (is_empty (get a (codes "--id") [])) (λ _. Makes-raise tracing)
      (λ _. Makes-pure tracing (refl, refl))

open_handle-Becomes :
    {m : Trace} (id : ℕ) → Becomes (open_handle id) (λ _. record m { opened = id ∷ m.opened }) m
unfolding open_handle
open_handle-Becomes {m} id =
    Makes-step tracing (λ _. m)
      (check-Makes tracing (init key_pair object) "key_object_init" (λ r g s. refl))
      λ _.
        Makes-step tracing (λ _. record m { opened = id ∷ m.opened })
          (check-Makes tracing (get_handle key_pair id) "key_object_get_handle" (λ r g s. refl))
          λ _. Makes-pure tracing refl

pub ec_open_key-Becomes :
    {m : Trace} (id : ℕ) → Becomes (EcKey.open_key id) (λ _. record m { opened = id ∷ m.opened }) m
unfolding EcKey.open_key
ec_open_key-Becomes id = Makes-step tracing _ (open_handle-Becomes id) λ _. Makes-pure tracing refl

pub rsa_open_key-Becomes :
    {m : Trace} (id : ℕ) → Becomes (RsaKey.open_key id) (λ _. record m { opened = id ∷ m.opened }) m
unfolding RsaKey.open_key
rsa_open_key-Becomes id = Makes-step tracing _ (open_handle-Becomes id) λ _. Makes-pure tracing refl

pub read_whole-Becomes :
    {m : Trace} (path : Text)
    → Becomes (read_whole path) (λ d. record m { reads = (path, d) ∷ m.reads }) m
unfolding read_whole
read_whole-Becomes path =
    Makes-call tracing (read_file path) _ λ r g.
      Makes-if tracing (is_success r) (λ _. Makes-pure tracing refl) (λ _. Makes-raise tracing)

-- A hash has 32 bytes: none is cut off or added.
pub hash-Becomes :
    {m : Trace} (msg : List ℕ)
    → Becomes (hash msg) (λ h. record m { hashes = (msg, h) ∷ m.hashes }) m
unfolding hash
hash-Becomes {m} msg = Makes-call tracing (sha256 msg) _ λ r g.
    let zeros : List ℕ = replicate 32 0 in
    let whole : resize 32 r.bytes ≡ r.bytes =
      subst (λ n. take n (r.bytes ++ zeros) ≡ r.bytes) (==_eq (length r.bytes) 32 g)
        (take-append r.bytes zeros) in
    Makes-pure tracing (ap (λ h. record m { hashes = (msg, h) ∷ m.hashes }) (sym whole))

-- The signature of `d`.
abbrev Signs : Trace → (d : List ℕ) → List ℕ → Trace
Signs m d sig = record m { signatures = (d, sig) ∷ m.signatures }

abbrev Checks : Trace → (d sig : List ℕ) → Bool → Trace
Checks m d sig b = record m { checks = ((d, sig), b) ∷ m.checks }

pub ec_sign-Becomes : {m : Trace} (k : EcKey) (d : List ℕ) → Becomes (EcKey.sign k d) (Signs m d) m
unfolding EcKey.sign
ec_sign-Becomes {m} k d =
    Makes-step tracing (λ _. m)
      (check-Makes tracing (init asym (asymmetric_context key_pair k.sig_algo mode_sign)) _
        (λ r g s. refl))
      λ _.
        Makes-then tracing
          {q' = λ r m'. (m' ≡ Signs m d r.bytes) × ((r.len == length r.bytes) ≡ true)}
          (check_after-Makes tracing (sign_digest d 256) asym _ (λ r r' g s. (refl, g)))
          λ r m' h. as_vector tracing 256 r h.1 h.0

pub rsa_sign-Becomes :
    {m : Trace} (k : RsaKey) (d : List ℕ) → Becomes (RsaKey.sign k d) (Signs m d) m
unfolding RsaKey.sign
rsa_sign-Becomes {m} k d =
    Makes-step tracing (λ _. m)
      (check-Makes tracing
        (init asym (asymmetric_context key_pair rsassa_pkcs1_v1_5_sha256 mode_sign)) _
        (λ r g s. refl))
      λ _.
        Makes-then tracing
          {q' = λ r m'. (m' ≡ Signs m d r.bytes) × ((r.len == length r.bytes) ≡ true)}
          (check_after-Makes tracing (sign_digest d (k.bits / 8)) asym _ (λ r r' g s. (refl, g)))
          λ r m' h. as_vector tracing (k.bits / 8) r h.1 h.0

pub ec_verify-Becomes :
    {m : Trace} (k : EcKey) (d sig : List ℕ) → Becomes (EcKey.verify k d sig) (Checks m d sig) m
unfolding EcKey.verify
ec_verify-Becomes {m} k d sig =
    Makes-step tracing (λ _. m)
      (check-Makes tracing (init asym (asymmetric_context key_pair k.sig_algo mode_verify)) _
        (λ r g s. refl))
      λ _.
        Makes-call tracing (sss (verify_digest d sig)) _
          λ r _. Makes-call tracing (sss (free asym)) _ λ _ _. Makes-pure tracing refl

pub rsa_verify-Becomes :
    {m : Trace} (k : RsaKey) (d sig : List ℕ) → Becomes (RsaKey.verify k d sig) (Checks m d sig) m
unfolding RsaKey.verify
rsa_verify-Becomes {m} k d sig =
    Makes-step tracing (λ _. m)
      (check-Makes tracing
        (init asym (asymmetric_context key_pair rsassa_pkcs1_v1_5_sha256 mode_verify)) _
        (λ r g s. refl))
      λ _.
        Makes-call tracing (sss (verify_digest d sig)) _
          λ r _. Makes-call tracing (sss (free asym)) _ λ _ _. Makes-pure tracing refl

pub emit-Becomes :
    {m : Trace} (a : Args) (d : List ℕ)
    → Becomes (emit a d) (λ _. record m { outputs = (destination a, d) ∷ m.outputs }) m
unfolding emit write_whole
emit-Becomes {m} a d =
    let out = get a (codes "--out") [] in
    let to : Option Text → Trace = λ o. record m { outputs = (o, d) ∷ m.outputs } in
    Makes-if tracing (is_empty out)
      (λ e.
        let shown : destination a ≡ none = rw e refl in
        Makes-call tracing (print_hex d) _ λ _ _. Makes-pure tracing (ap to (sym shown)))
      (λ e.
        let filed : destination a ≡ some out = rw e refl in
        Makes-call tracing (write_file out d) _ λ r _.
          Makes-if tracing (is_success r) (λ _. Makes-pure tracing (ap to (sym filed)))
            (λ _. Makes-raise tracing))

pub report-Becomes :
    {m : Trace} (b : Bool)
    → Makes tracing
        (report b)
        (λ rc m'. (rc ≡ (if b then 0 else 2)) × (m' ≡ record m { verdicts = b ∷ m.verdicts }))
        m
unfolding report
report-Becomes b = Makes-call tracing (print_verdict b) _ λ _ _. Makes-pure tracing (refl, refl)
