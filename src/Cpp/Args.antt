-- ===== src/Cpp/Args.antt =====
-- The option parser of cpp_app/main.cpp.
pub mod RoundTrip
pub mod Numbers
use se05x.Base.{
  ℕ, ◌+◌, ◌-◌, ◌*◌, ◌%◌, ◌^◌, Bool, true, false, ◌&&◌, ◌||◌, String, List, [], ◌∷◌, ◌++◌, ◌==◌, leb,
  ltb, bytes_eq, if◌then◌else◌, codes, get_or, Option, some, none,
}
use se05x.Prog.{ret}
use se05x.Cpp.Calls.{Text, Cpp, Result, ok, throw, runtime_error, pure, raise}

-- opt, a std::map
abbrev pub Options : Type 0
Options = List (Text × Text)

pub record Args : Type 0 where
  pub group : Text
  pub command : Text
  pub positional : Text
  pub opt : Options

-- opt[k] = v
unfoldable pub insert : Text → Text → Options → Options
insert k v [] = (k, v) ∷ []
insert k v ((j, w) ∷ m) =
    let rest = insert k v m in if bytes_eq j k then (k, v) ∷ m else (j, w) ∷ rest

-- opt.find(k)
unfoldable pub find : Text → Options → Option Text
find k [] = none
find k ((j, v) ∷ m) = let rest = find k m in if bytes_eq j k then some v else rest

abbrev pub or_default : Option Text → Text → Text
or_default none def = def
or_default (some v) def = v

abbrev pub is_some : Option Text → Bool
is_some none = false
is_some (some v) = true

-- Args::flag and Args::get
unfoldable pub flag : Args → Text → Bool
unfolding find
flag a k = is_some (find k a.opt)

unfoldable pub get : Args → Text → (def : Text) → Text
unfolding find
get a k def = or_default (find k a.opt) def

abbrev pub is_empty : Text → Bool
is_empty [] = true
is_empty (c ∷ t) = false

-- t.rfind("--", 0) == 0
unfoldable pub starts_dashes : Text → Bool
starts_dashes (a ∷ b ∷ t) = a == b'-' && b == b'-'
starts_dashes _ = false

abbrev pub force : Text
force = codes "--force"

abbrev pub one : Text
one = codes "1"

-- The loop of parseArgs: `opt` and `pos` as they stand.
unfoldable pub scan : List Text → (opt : Options) (pos : List Text) → Options × List Text
unfolding starts_dashes insert
scan [] opt pos = (opt, pos)
scan (t ∷ []) opt pos = if starts_dashes t then (insert t one opt, pos) else (opt, pos ++ (t ∷ []))
scan (t ∷ v ∷ rest) opt pos =
    let forced = scan (v ∷ rest) (insert t one opt) pos in
    let valued = scan rest (insert t v opt) pos in
    let positional = scan (v ∷ rest) opt (pos ++ (t ∷ [])) in
    if starts_dashes t then (if bytes_eq t force then forced else valued) else positional

-- The end of parseArgs.
unfoldable pub assign : Options × List Text → Args
assign (opt, pos) =
    let group = get_or pos 0 [] in
    let command = get_or pos 1 [] in
    let third = get_or pos 2 [] in
    record {
      group = group;
      command = command;
      positional = if bytes_eq group (codes "rng") && is_empty third then command else third;
      opt = opt;
    }

-- The program's name is not looked at.
unfoldable pub parse_args : (argv : List Text) → Args
unfolding scan assign
parse_args [] = assign ([], [])
parse_args (program ∷ rest) = assign (scan rest [] [])

-- isspace in the C locale
abbrev pub is_space : ℕ → Bool
is_space c = c == b' ' || (leb 9 c && leb c 13)

unfoldable pub skip_spaces : Text → Text
skip_spaces [] = []
skip_spaces (c ∷ t) = let rest = skip_spaces t in if is_space c then rest else c ∷ t

-- The value of a digit, or 99.
unfoldable pub digit : ℕ → ℕ
digit c =
    if leb b'0' c && leb c b'9'
    then c - b'0'
    else if leb b'a' c && leb c b'z'
    then c - b'a' + 10
    else if leb b'A' c && leb c b'Z'
    then c - b'A' + 10
    else 99

-- The digits at the front of a text.
unfoldable pub digits : (base acc : ℕ) → Text → ℕ
unfolding digit
digits base acc [] = acc
digits base acc (c ∷ t) =
    let rest = digits base (acc * base + digit c) t in if ltb (digit c) base then rest else acc

-- Base 0: a prefix 0x is hexadecimal, a prefix 0 octal.
unfoldable pub unsigned : Text → ℕ
unfolding digits
unsigned (a ∷ b ∷ t) =
    if a == b'0'
    then (if b == b'x' || b == b'X' then digits 16 0 t else digits 8 0 (b ∷ t))
    else digits 10 0 (a ∷ b ∷ t)
unsigned t = digits 10 0 t

-- The value, clamped to ULONG_MAX = `max`; a minus sign negates in unsigned long.
abbrev pub signed : (max : ℕ) (negative : Bool) (n : ℕ) → ℕ
signed max negative n = if ltb max n then max else if negative then (max + 1 - n) % (max + 1) else n

unfoldable pub after_spaces : (max : ℕ) → Text → ℕ
unfolding unsigned
after_spaces max [] = 0
after_spaces max (c ∷ t) =
    if c == b'-'
    then signed max true (unsigned t)
    else if c == b'+'
    then signed max false (unsigned t)
    else signed max false (unsigned (c ∷ t))

-- std::strtoul(s, nullptr, 0)
unfoldable pub strtoul : (max : ℕ) → Text → ℕ
unfolding after_spaces skip_spaces
strtoul max t = after_spaces max (skip_spaces t)

-- The cast to uint32_t drops the upper bits.
unfoldable pub parse_id : (max : ℕ) → Args → Cpp ℕ
unfolding strtoul get
parse_id max a =
    let s = get a (codes "--id") [] in
    if is_empty s
    then raise (runtime_error "--id is required" [])
    else pure (strtoul max s % 2 ^ 32)

pub data EcCurve : Type 0 where
  nist_p256 nist_p384 nist_p521 : EcCurve

unfoldable pub parse_curve : Text → Cpp EcCurve
parse_curve s =
    if is_empty s || bytes_eq s (codes "p256")
    then pure nist_p256
    else if bytes_eq s (codes "p384")
    then pure nist_p384
    else if bytes_eq s (codes "p521")
    then pure nist_p521
    else raise (runtime_error "unknown curve: " s)

-- An RsaBits, by its value.
unfoldable pub parse_bits : Text → Cpp ℕ
parse_bits s =
    if is_empty s || bytes_eq s (codes "2048")
    then pure 2048
    else if bytes_eq s (codes "3072")
    then pure 3072
    else if bytes_eq s (codes "4096")
    then pure 4096
    else raise (runtime_error "unknown RSA size: " s)
