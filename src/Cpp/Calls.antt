-- ===== src/Cpp/Calls.antt =====
-- What the C++ application uses of Plug & Trust, of mbedTLS, of the file system and of its output,
-- and exceptions. A function of cpp_app/ is a tree of calls that ends in a value or in what it throws.
use se05x.Base.{
  ℕ, Bool, String, List, [], ◌++◌, Option, if◌then◌else◌, take, drop, length, replicate,
}
use se05x.Prog.{Prog, ret, act}
use se05x.App.Sss
use se05x.App.Sss.{Reply, is_success, fail}

-- A std::string, by its bytes.
abbrev pub Text : Type 0
Text = List ℕ

-- CryptoError and std::runtime_error, and what a vector throws that cannot be had (std::length_error or
-- std::bad_alloc), with the fixed part of the message and what is appended.
pub data Thrown : Type 0 where
  crypto_error : (message : String) → (detail : Text) → (status : ℕ) → Thrown
  runtime_error : (message : String) → (detail : Text) → Thrown
  allocation_error : Thrown

pub data Call : Type 0 where
  -- a call of SSS or of mbedTLS
  sss : Sss.Call → Call
  -- mbedtls_sha256, whose result is not looked at
  sha256 : (input : List ℕ) → Call
  -- ex_sss_boot_open, ex_sss_key_store_and_object_init, ex_sss_session_close
  boot_open : (port : Option Text) → Call
  store_init session_close : Call
  -- the allocation of a vector of a size that the user gives
  allocate : (size : ℕ) → Call
  -- a file that is read whole; a file that is opened, written and closed: success says that it opened
  read_file : (path : Text) → Call
  write_file : (path : Text) → List ℕ → Call
  -- printHex, fputs to stdout, the line of `verify`
  print_hex : List ℕ → Call
  print_text : Text → Call
  print_verdict : Bool → Call
  -- usage; the lines of main on stderr, for what was thrown and for a session that does not open
  print_usage : Call
  print_error : Thrown → Call
  print_boot_error : (status : ℕ) → Call

pub data Result (A : Type 0) : Type 0 where
  ok : A → Result A
  throw : Thrown → Result A

abbrev pub Cpp : Type 0 → Type 0
Cpp A = Prog Call Reply (Result A)

infixl 5 ◌>>=◌ ◌>>◌
abbrev pub ◌>>=◌ : {A B : Type 0} → Cpp A → (A → Cpp B) → Cpp B
ret (ok a) >>= f = f a
ret (throw e) >>= f = ret (throw e)
act c k >>= f = act c (λ r. k r >>= f)

abbrev pub ◌>>◌ : {A B : Type 0} → Cpp A → Cpp B → Cpp B
m >> n = m >>= λ _. n

abbrev pub pure : {A : Type 0} → A → Cpp A
pure a = ret (ok a)

abbrev pub raise : {A : Type 0} → Thrown → Cpp A
raise e = ret (throw e)

abbrev pub call : Call → Cpp Reply
call c = act c (λ r. ret (ok r))

-- try { p } catch (...) {}
abbrev pub swallow : {A : Type 0} → Cpp A → Cpp (Unit {0})
swallow (ret a) = ret (ok tt)
swallow (act c k) = act c (λ r. swallow (k r))

-- check(call, where)
unfoldable pub check : Sss.Call → (where_ : String) → Cpp Reply
check c where_ =
    act (sss c) λ r. if is_success r then pure r else raise (crypto_error where_ [] r.status)

-- A call, the release of its context, and the check of the call's status.
unfoldable pub check_after : Sss.Call → (context : ℕ) → (where_ : String) → Cpp Reply
check_after c context where_ = act (sss c) λ r.
    act (sss (Sss.free context))
      λ _. if is_success r then pure r else raise (crypto_error where_ [] r.status)

-- resize of a vector of bytes
abbrev pub resize : ℕ → List ℕ → List ℕ
resize n xs = take n (xs ++ replicate n 0)

-- A vector of `room` zeros after a call wrote to it, resized to the length that the call reported.
abbrev pub vector : (room : ℕ) → Reply → List ℕ
vector room r = resize r.len (r.bytes ++ drop (length r.bytes) (replicate room 0))
