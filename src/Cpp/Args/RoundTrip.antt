-- ===== src/Cpp/Args/RoundTrip.antt =====
-- What parseArgs makes of a command line that was put together from options and positionals.
use se05x.Base.{
  ◌≡◌, refl, ap, ◌∙◌, true, false, Option, some, none, List, [], ◌∷◌, ◌++◌, bytes_eq, bytes_eq_refl,
  bytes_eq_eq, codes, ◌&&◌, if◌then◌else◌, get_or, arith,
}
use mathlib.Core.List.{append_assoc, append-nil}
use se05x.Cpp.Calls.{Text}
use se05x.Cpp.Args.{
  Options, is_empty, insert, find, starts_dashes, force, one, scan, assign, parse_args,
}

-- A positional, the flag --force, an option with its value.
pub data Token : Type 0 where
  value : Text → Token
  forced : Token
  option : (key : Text) → Text → Token

abbrev pub render : List Token → List Text
render [] = []
render (value t ∷ ts) = t ∷ render ts
render (forced ∷ ts) = force ∷ render ts
render (option k v ∷ ts) = k ∷ v ∷ render ts

-- A positional does not look like an option, and a key does and is not --force.
abbrev pub IsWellFormed : List Token → Type 0
IsWellFormed [] = Unit {0}
IsWellFormed (value t ∷ ts) = (starts_dashes t ≡ false) × IsWellFormed ts
IsWellFormed (forced ∷ ts) = IsWellFormed ts
IsWellFormed (option k v ∷ ts) =
    (starts_dashes k ≡ true) × (bytes_eq k force ≡ false) × IsWellFormed ts

abbrev pub positionals : List Token → List Text
positionals [] = []
positionals (value t ∷ ts) = t ∷ positionals ts
positionals (forced ∷ ts) = positionals ts
positionals (option k v ∷ ts) = positionals ts

abbrev options : List Token → Options → Options
options [] m = m
options (value t ∷ ts) m = options ts m
options (forced ∷ ts) m = options ts (insert force one m)
options (option k v ∷ ts) m = options ts (insert k v m)

-- The first of two answers.
abbrev or_else : Option Text → Option Text → Option Text
or_else (some v) other = some v
or_else none other = other

-- What is given for a key last.
abbrev pub last_of : Text → List Token → Option Text
last_of j [] = none
last_of j (value t ∷ ts) = last_of j ts
last_of j (forced ∷ ts) = or_else (last_of j ts) (if bytes_eq force j then some one else none)
last_of j (option k v ∷ ts) = or_else (last_of j ts) (if bytes_eq k j then some v else none)

scan_value :
    (t : Text) (xs : List Text) (m : Options) (pos : List Text)
    → starts_dashes t ≡ false
    → scan (t ∷ xs) m pos ≡ scan xs m (pos ++ (t ∷ []))
unfolding scan
scan_value t [] m pos h = rw h
scan_value t (v ∷ xs) m pos h = rw h

scan-force :
    (xs : List Text) (m : Options) (pos : List Text)
    → scan (force ∷ xs) m pos ≡ scan xs (insert force one m) pos
unfolding scan
scan-force [] m pos = refl
scan-force (v ∷ xs) m pos = refl

scan_option :
    (k v : Text) (xs : List Text) (m : Options) (pos : List Text)
    → starts_dashes k ≡ true
    → bytes_eq k force ≡ false
    → scan (k ∷ v ∷ xs) m pos ≡ scan xs (insert k v m) pos
unfolding scan
scan_option k v xs m pos h g = rw (h, g)

scan-render :
    (ts : List Token) (m : Options) (pos : List Text)
    → IsWellFormed ts
    → scan (render ts) m pos ≡ (options ts m, pos ++ positionals ts)
unfolding scan
scan-render [] m pos h = rw append-nil
scan-render (value t ∷ ts) m pos h =
    scan_value t (render ts) m pos h.0 ∙ (scan-render ts m (pos ++ (t ∷ [])) h.1 ∙ rw append_assoc)
scan-render (forced ∷ ts) m pos h =
    scan-force (render ts) m pos ∙ scan-render ts (insert force one m) pos h
scan-render (option k v ∷ ts) m pos h =
    scan_option k v (render ts) m pos h.0 h.1 ∙ scan-render ts (insert k v m) pos h.2

-- A key that was inserted is found, and no other is touched.
find-insert :
    (j k v : Text) (m : Options)
    → find j (insert k v m) ≡ (if bytes_eq k j then some v else find j m)
unfolding find insert
find-insert j k v [] = refl
find-insert j k v ((i, w) ∷ m) =
    ground (
      arith,
      bytes_eq_eq i k,
      bytes_eq_eq k j,
      bytes_eq_eq i j,
      bytes_eq_refl k,
      find-insert j k v m,
    )

find-options :
    (j : Text) (ts : List Token) (m : Options)
    → find j (options ts m) ≡ or_else (last_of j ts) (find j m)
find-options j [] m = refl
find-options j (value t ∷ ts) m = find-options j ts m
find-options j (forced ∷ ts) m =
    ground (arith, find-options j ts (insert force one m), find-insert j force one m)
find-options j (option k v ∷ ts) m =
    ground (arith, find-options j ts (insert k v m), find-insert j k v m)

-- `positional` as it is meant: the third one, or for rng the second if there is no third.
abbrev pub third_positional : List Text → Text
third_positional (g ∷ c ∷ t ∷ rest) = if bytes_eq g (codes "rng") && is_empty t then c else t
third_positional (g ∷ c ∷ []) = if bytes_eq g (codes "rng") then c else []
third_positional _ = []

third_lem : (m : Options) (pos : List Text) → (assign (m, pos)).positional ≡ third_positional pos
unfolding assign
third_lem m [] = refl
third_lem m (g ∷ []) = ground arith
third_lem m (g ∷ c ∷ []) = ground arith
third_lem m (g ∷ c ∷ t ∷ rest) = refl

options_pos :
    (ts : List Token) → IsWellFormed ts → scan (render ts) [] [] ≡ (options ts [], positionals ts)
options_pos ts h = scan-render ts [] [] h

find-none : (j : Text) → find j [] ≡ none
unfolding find
find-none j = refl

or_else-none : (o : Option Text) → or_else o none ≡ o
or_else-none none = refl
or_else-none (some v) = refl

-- A command line of positionals that do not begin with --, of --force, and of other options with values,
-- in any order, is read back: the group and the command are the first two positionals, or empty; the
-- field `positional` is the third, or the command if the group is rng and there is no third or an empty
-- one; and each key has the value that was given for it last, or none.
pub parse_args-render :
    (program : Text) (ts : List Token)
    → IsWellFormed ts
    → ((parse_args (program ∷ render ts)).group ≡ get_or (positionals ts) 0 [])
      × ((parse_args (program ∷ render ts)).command ≡ get_or (positionals ts) 1 [])
      × ((parse_args (program ∷ render ts)).positional ≡ third_positional (positionals ts))
      × ((j : Text) → find j (parse_args (program ∷ render ts)).opt ≡ last_of j ts)
unfolding parse_args
parse_args-render program ts h =
    let e = options_pos ts h in
    (
      rw e,
      rw e,
      ap (λ s. (assign s).positional) e ∙ third_lem (options ts []) (positionals ts),
      λ j.
          ap (λ s. find j (assign s).opt) e
          ∙ (find-options j ts []
              ∙ (ap (or_else (last_of j ts)) (find-none j) ∙ or_else-none (last_of j ts))),
    )
