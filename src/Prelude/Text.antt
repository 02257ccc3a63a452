-- ===== src/Prelude/Text.antt =====
-- What the program does to texts: cutting at the first slash, and numbers in base 16.
use Prim.Native.Nat.{ℕ, zero, suc, ◌/◌, ◌%◌}
use Prim.Native.Char.{code}
use Prim.Native.String.{String, ◌++◌}
use mathlib.Core.Bool.{Bool, false, ◌||◌}
use mathlib.Core.Path.{◌≡◌, refl, ap}
use mathlib.Core.Option.{Option, none, some}
use mathlib.Core.List.{List, [], ◌∷◌}
use native.Mathlib.Omega.{arith}
use text.Mathlib.TextLemmas.{nil-append, cons-append}
use vihara.Prelude.Tests.{ltb, eqb, if◌then◌else◌}
use vihara.Prelude.Lists.{get_elem?}

-- `strings.SplitN(s, "/", 2)` where it gives two parts
unfoldable pub split_slash : String → Option (String × String)
split_slash String.[] = none
split_slash (String.◌∷◌ c s) =
    let rest = split_slash s in
    if eqb (code c) b'/'
    then some ("", s)
    else elim rest [ none ↦ none | some (a, b) ↦ some (String.◌∷◌ c a, b) ]

abbrev pub digits : List String
digits =
    "0" ∷ "1" ∷ "2" ∷ "3" ∷ "4" ∷ "5" ∷ "6" ∷ "7" ∷ "8" ∷ "9" ∷ "a" ∷ "b" ∷ "c" ∷ "d" ∷ "e" ∷ "f"
    ∷ []

abbrev pub hex_digit : ℕ → String
hex_digit d = elim (get_elem? digits d) [ none ↦ "" | some s ↦ s ]

unfoldable pub hex_digits : ℕ → ℕ → String
hex_digits zero n = ""
hex_digits (suc f) n =
    let high = hex_digits f (n / 16) in if ltb n 16 then hex_digit n else high ++ hex_digit (n % 16)

-- `strconv.FormatUint(n, 16)`: a uint64 has at most 16 digits.
unfoldable pub format_hex : ℕ → String
unfolding hex_digits
format_hex n = hex_digits 16 n

split_slash_job : split_slash "vihara/mt.node-1" ≡ some ("vihara", "mt.node-1")
unfolding split_slash
split_slash_job = refl

format_hex_seventeen : format_hex 29 ≡ "1d"
unfolding format_hex
format_hex_seventeen = refl

unfoldable pub has_slash : String → Bool
has_slash String.[] = false
has_slash (String.◌∷◌ c s) = eqb (code c) b'/' || has_slash s

-- Cutting a key of the cache gives its namespace and its name.
pub split_slash-key :
    (a b : String) → has_slash a ≡ false → split_slash (a ++ "/" ++ b) ≡ some (a, b)
unfolding split_slash has_slash
split_slash-key String.[] b h =
    rw nil-append (rw cons-append (ap some (ap (λ (t : String). ("", t)) (nil-append b))))
split_slash-key (String.◌∷◌ c a) b h = simp (cons-append) (ground (arith, split_slash-key a b))
