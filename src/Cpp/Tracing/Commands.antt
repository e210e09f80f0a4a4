-- ===== src/Cpp/Tracing/Commands.antt =====
-- The commands `sign` and `verify` of cpp_app/main.cpp, from the command line to the result.
use se05x.Base.{
  ℕ, ◌≡◌, refl, sym, subst, ◌∙◌, Bool, true, false, List, [], ◌∷◌, codes, if◌then◌else◌,
}
use se05x.App.Sss.{sha256}
use se05x.Cpp.Calls.{Text}
use se05x.Cpp.Args.{Args, get}
use se05x.Cpp.Commands.Ecc.{ecc_sign, ecc_verify, do_ecc}
use se05x.Cpp.Commands.Rsa.{rsa_sign, rsa_verify, do_rsa}
use se05x.Cpp.Entry.{dispatch}
use se05x.Cpp.Makes.{Makes, Yields-then, Makes-pure, Makes-step, Makes-last}
use se05x.Cpp.Tracing.{Trace, blank, tracing}
use se05x.Cpp.Tracing.Steps.{
  given_id, destination, parse_id-Yields, ec_open_key-Becomes, rsa_open_key-Becomes,
  read_whole-Becomes, hash-Becomes, ec_sign-Becomes, rsa_sign-Becomes, ec_verify-Becomes,
  rsa_verify-Becomes, emit-Becomes, report-Becomes,
}

-- One key was opened, one file was read and hashed, the hash was signed, and the signature was put out;
-- nothing else was read, hashed, signed, verified or put out.
pub record Signed (max : ℕ) (a : Args) (rc : ℕ) (t : Trace) : Type 0 where
  pub message : List ℕ
  pub digest : List ℕ
  pub signature : List ℕ
  pub status : rc ≡ 0
  pub only : t ≡ record {
    opened = given_id max a ∷ [];
    reads = (get a (codes "--in") [], message) ∷ [];
    hashes = (message, digest) ∷ [];
    signatures = (digest, signature) ∷ [];
    checks = [];
    outputs = (destination a, signature) ∷ [];
    verdicts = [];
  }

-- One key was opened, two files were read, the first was hashed, the second was verified as a signature
-- of the hash, and the answer was printed and is the status; nothing else was done.
pub record Verified (max : ℕ) (a : Args) (rc : ℕ) (t : Trace) : Type 0 where
  pub message : List ℕ
  pub digest : List ℕ
  pub signature : List ℕ
  pub answer : Bool
  pub status : rc ≡ (if answer then 0 else 2)
  pub only : t ≡ record {
    opened = given_id max a ∷ [];
    reads = (get a (codes "--sig") [], signature) ∷ (get a (codes "--in") [], message) ∷ [];
    hashes = (message, digest) ∷ [];
    signatures = [];
    checks = ((digest, signature), answer) ∷ [];
    outputs = [];
    verdicts = answer ∷ [];
  }

module _ (max : ℕ) (a : Args) where
  ecc_sign-Makes : Makes tracing (ecc_sign max a) (Signed max a) blank
  unfolding ecc_sign
  ecc_sign-Makes = Yields-then tracing (parse_id-Yields max a) λ id e.
      Makes-step tracing _ (ec_open_key-Becomes id) λ k.
        Makes-step tracing _ (read_whole-Becomes (get a (codes "--in") [])) λ msg.
          Makes-step tracing _ (hash-Becomes msg) λ d.
            Makes-step tracing _ (ec_sign-Becomes (record k { sig_algo = sha256 }) d) λ sig.
              Makes-step tracing _ (emit-Becomes a sig) λ _. Makes-pure tracing (record {
                message = msg;
                digest = d;
                signature = sig;
                status = refl;
                only = rw e refl;
              })

  rsa_sign-Makes : Makes tracing (rsa_sign max a) (Signed max a) blank
  unfolding rsa_sign
  rsa_sign-Makes = Yields-then tracing (parse_id-Yields max a) λ id e.
      Makes-step tracing _ (rsa_open_key-Becomes id) λ k.
        Makes-step tracing _ (read_whole-Becomes (get a (codes "--in") [])) λ msg.
          Makes-step tracing _ (hash-Becomes msg) λ d.
            Makes-step tracing _ (rsa_sign-Becomes k d) λ sig.
              Makes-step tracing _ (emit-Becomes a sig) λ _. Makes-pure tracing (record {
                message = msg;
                digest = d;
                signature = sig;
                status = refl;
                only = rw e refl;
              })

  ecc_verify-Makes : Makes tracing (ecc_verify max a) (Verified max a) blank
  unfolding ecc_verify
  ecc_verify-Makes = Yields-then tracing (parse_id-Yields max a) λ id e.
      Makes-step tracing _ (ec_open_key-Becomes id) λ k.
        Makes-step tracing _ (read_whole-Becomes (get a (codes "--in") [])) λ msg.
          Makes-step tracing _ (hash-Becomes msg) λ d.
            Makes-step tracing _ (read_whole-Becomes (get a (codes "--sig") [])) λ sig.
              Makes-step tracing _ (ec_verify-Becomes (record k { sig_algo = sha256 }) d sig) λ b.
                Makes-last tracing (report-Becomes b) λ rc m h. record {
                  message = msg;
                  digest = d;
                  signature = sig;
                  answer = b;
                  status = h.0;
                  only = h.1 ∙ rw e refl;
                }

  rsa_verify-Makes : Makes tracing (rsa_verify max a) (Verified max a) blank
  unfolding rsa_verify
  rsa_verify-Makes = Yields-then tracing (parse_id-Yields max a) λ id e.
      Makes-step tracing _ (rsa_open_key-Becomes id) λ k.
        Makes-step tracing _ (read_whole-Becomes (get a (codes "--in") [])) λ msg.
          Makes-step tracing _ (hash-Becomes msg) λ d.
            Makes-step tracing _ (read_whole-Becomes (get a (codes "--sig") [])) λ sig.
              Makes-step tracing _ (rsa_verify-Becomes k d sig) λ b.
                Makes-last tracing (report-Becomes b) λ rc m h. record {
                  message = msg;
                  digest = d;
                  signature = sig;
                  answer = b;
                  status = h.0;
                  only = h.1 ∙ rw e refl;
                }

-- The group of the two kinds of key.
abbrev pub group_of : (rsa : Bool) → Text
group_of true = codes "rsa"
group_of false = codes "ecc"

dispatch-sign :
    (max : ℕ) (rsa : Bool) (a : Args)
    → a.group ≡ group_of rsa
    → a.command ≡ codes "sign"
    → dispatch max a ≡ (if rsa then rsa_sign max a else ecc_sign max a)
unfolding dispatch do_ecc do_rsa
dispatch-sign max true a g c = rw (g, c) refl
dispatch-sign max false a g c = rw (g, c) refl

dispatch-verify :
    (max : ℕ) (rsa : Bool) (a : Args)
    → a.group ≡ group_of rsa
    → a.command ≡ codes "verify"
    → dispatch max a ≡ (if rsa then rsa_verify max a else ecc_verify max a)
unfolding dispatch do_ecc do_rsa
dispatch-verify max true a g c = rw (g, c) refl
dispatch-verify max false a g c = rw (g, c) refl

pub sign-Makes :
    (max : ℕ) (rsa : Bool) (a : Args)
    → a.group ≡ group_of rsa
    → a.command ≡ codes "sign"
    → Makes tracing (dispatch max a) (Signed max a) blank
sign-Makes max true a g c =
    subst (λ p. Makes tracing p (Signed max a) blank) (sym (dispatch-sign max true a g c))
      (rsa_sign-Makes max a)
sign-Makes max false a g c =
    subst (λ p. Makes tracing p (Signed max a) blank) (sym (dispatch-sign max false a g c))
      (ecc_sign-Makes max a)

pub verify-Makes :
    (max : ℕ) (rsa : Bool) (a : Args)
    → a.group ≡ group_of rsa
    → a.command ≡ codes "verify"
    → Makes tracing (dispatch max a) (Verified max a) blank
verify-Makes max true a g c =
    subst (λ p. Makes tracing p (Verified max a) blank) (sym (dispatch-verify max true a g c))
      (rsa_verify-Makes max a)
verify-Makes max false a g c =
    subst (λ p. Makes tracing p (Verified max a) blank) (sym (dispatch-verify max false a g c))
      (ecc_verify-Makes max a)
