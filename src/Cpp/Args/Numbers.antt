-- ===== src/Cpp/Args/Numbers.antt =====
-- What parseId makes of a hexadecimal number.
use se05x.Base.{
  ℕ, ◌+◌, ◌-◌, ◌*◌, ◌/◌, ◌%◌, ◌^◌, ◌<◌, ◌≤◌, ◌≡◌, refl, ◌∙◌, List, [], ◌∷◌, map, ltb, if◌then◌else◌,
  arith, codes, some, ap,
}
use se05x.Cpp.Calls.{Text, pure}
use se05x.Cpp.Args.RoundTrip.{Token, render, IsWellFormed, last_of, parse_args-render}
use se05x.Cpp.Args.{Args, find, get, parse_args, digit, digits, unsigned, strtoul, parse_id}

-- A digit as %X prints it.
abbrev pub hex_char : ℕ → ℕ
hex_char d = if ltb d 10 then b'0' + d else b'A' + d - 10

abbrev pub AllDigits : List ℕ → Type 0
AllDigits [] = Unit {0}
AllDigits (d ∷ ds) = (d < 16) × AllDigits ds

-- The number that hexadecimal digits stand for.
abbrev pub number : (acc : ℕ) → List ℕ → ℕ
number acc [] = acc
number acc (d ∷ ds) = number (acc * 16 + d) ds

abbrev pub hex : List ℕ → Text
hex ds = b'0' ∷ b'x' ∷ map hex_char ds

digit-hex_char : (d : ℕ) → d < 16 → digit (hex_char d) ≡ d
unfolding digit
digit-hex_char d h = ground arith

digits-hex_char :
    (ds : List ℕ) (acc : ℕ) → AllDigits ds → digits 16 acc (map hex_char ds) ≡ number acc ds
unfolding digits
digits-hex_char [] acc h = refl
digits-hex_char (d ∷ ds) acc h =
    rw (digit-hex_char d h.0) (ground (arith, digits-hex_char ds (acc * 16 + d) h.1))

-- The eight digits of %08X.
abbrev pub digits8 : ℕ → List ℕ
digits8 n =
    n / 16 ^ 7 % 16
    ∷ n / 16 ^ 6 % 16
    ∷ n / 16 ^ 5 % 16
    ∷ n / 16 ^ 4 % 16
    ∷ n / 16 ^ 3 % 16
    ∷ n / 16 ^ 2 % 16
    ∷ n / 16 % 16
    ∷ n % 16
    ∷ []

number-digits8 : (n : ℕ) → n < 2 ^ 32 → number 0 (digits8 n) ≡ n
number-digits8 n h = omega arith

digits8-AllDigits : (n : ℕ) → AllDigits (digits8 n)
digits8-AllDigits n = omega arith

-- strtoul reads hexadecimal digits as the number that they stand for, clamped to ULONG_MAX.
strtoul-hex :
    (max : ℕ) (ds : List ℕ)
    → AllDigits ds
    → strtoul max (hex ds) ≡ (if ltb max (number 0 ds) then max else number 0 ds)
unfolding strtoul unsigned
strtoul-hex max ds h = rw (digits-hex_char ds 0 h)

-- The id of `--id 0x...` is the number that the digits stand for, clamped to ULONG_MAX and then
-- reduced modulo 2 ^ 32, without an error: digits beyond the eighth are dropped where ULONG_MAX is
-- larger.
pub parse_id-hex :
    (max : ℕ) (a : Args) (ds : List ℕ)
    → AllDigits ds
    → get a (codes "--id") [] ≡ hex ds
    → parse_id max a ≡ pure ((if ltb max (number 0 ds) then max else number 0 ds) % 2 ^ 32)
unfolding parse_id
parse_id-hex max a ds h e = rw (e, strtoul-hex max ds h)

get_found : (a : Args) (k : Text) {v : Text} → find k a.opt ≡ some v → get a k [] ≡ v
unfolding get
get_found a k e = rw e

fits :
    (max n : ℕ) {k : ℕ}
    → k ≡ n
    → n < 2 ^ 32
    → 2 ^ 32 ≤ max + 1
    → (if ltb max k then max else k) % 2 ^ 32 ≡ n
fits max n e h g = ground arith

-- If an unsigned long has at least 32 bits, parseId reads an id below 2 ^ 32 back from a command line
-- of positionals, --force and options with values on which it is what is given last for --id, as 0x
-- and the eight digits of %08X, the form in which genkey prints it.
pub parse_id-render :
    (max : ℕ) (program : Text) (ts : List Token) (n : ℕ)
    → IsWellFormed ts
    → last_of (codes "--id") ts ≡ some (hex (digits8 n))
    → n < 2 ^ 32
    → 2 ^ 32 ≤ max + 1
    → parse_id max (parse_args (program ∷ render ts)) ≡ pure n
parse_id-render max program ts n w l h g =
    let a = parse_args (program ∷ render ts) in
    let found : find (codes "--id") a.opt ≡ some (hex (digits8 n)) =
      (parse_args-render program ts w).3 (codes "--id") ∙ l in
    parse_id-hex max a (digits8 n) (digits8-AllDigits n) (get_found a (codes "--id") found)
    ∙ ap (λ (k : ℕ). pure k) (fits max n (number-digits8 n h) h g)
