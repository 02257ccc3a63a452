-- ===== src/Prelude/Hex.antt =====
-- Reading a number in base 16 back, and what it says of the texts of two numbers.
use Prim.Native.Nat.{ℕ, zero, suc, ◌+◌, ◌*◌, ◌/◌, ◌%◌, ◌-◌, ◌^◌, ◌<◌}
use Prim.Native.Nat.pow
use Prim.Native.Char.{code}
use Prim.Native.String.{String, ◌++◌}
use mathlib.Core.Option.{none, some}
use mathlib.Core.List.{List, [], ◌∷◌}
use mathlib.Core.Path.{◌≡◌, refl}
use mathlib.Core.Logic.{inl, inr}
use native.Mathlib.Omega.{arith}
use text.Mathlib.TextLemmas.{nil-append, cons-append}
use vihara.Prelude.Tests.{ltb, Bool-cases, if◌then◌else◌}
use vihara.Prelude.Lists.{length, get_elem?}
use vihara.Prelude.Text.{digits, hex_digit, hex_digits, format_hex}

-- the value of a digit from its code
abbrev digit_value : ℕ → ℕ
digit_value c = if ltb c 58 then c - 48 else c - 87

unfoldable pub parse_hex : ℕ → String → ℕ
parse_hex acc String.[] = acc
parse_hex acc (String.◌∷◌ c s) = parse_hex (acc * 16 + digit_value (code c)) s

parse_hex-append :
    (s : String) (acc : ℕ) (t : String) → parse_hex acc (s ++ t) ≡ parse_hex (parse_hex acc s) t
unfolding parse_hex
parse_hex-append String.[] acc t = rw nil-append refl
parse_hex-append (String.◌∷◌ c s) acc t =
    rw cons-append (parse_hex-append s (acc * 16 + digit_value (code c)) t)

-- The digits of a list stand for the numbers from `k` on.
abbrev Valued : List String → ℕ → Type 0
Valued [] k = Unit
Valued (s ∷ ss) k = ((acc : ℕ) → parse_hex acc s ≡ acc * 16 + k) × Valued ss (k + 1)

Valued-get_elem? :
    (ss : List String) (k d acc : ℕ)
    → d < length ss
    → Valued ss k
    → parse_hex acc (elim (get_elem? ss d) [ none ↦ "" | some s ↦ s ]) ≡ acc * 16 + (k + d)
Valued-get_elem? [] k d acc h v = ground arith
Valued-get_elem? (s ∷ ss) k zero acc h (v, vs) = omega (arith, v acc)
Valued-get_elem? (s ∷ ss) k (suc d) acc h (v, vs) =
    omega (arith, Valued-get_elem? ss (k + 1) d acc (omega arith) vs)

digits-Valued : Valued digits 0
unfolding parse_hex
digits-Valued = (
  λ _. refl,
  (
    λ _. refl,
    (
      λ _. refl,
      (
        λ _. refl,
        (
          λ _. refl,
          (
            λ _. refl,
            (
              λ _. refl,
              (
                λ _. refl,
                (
                  λ _. refl,
                  (
                    λ _. refl,
                    (
                      λ _. refl,
                      (λ _. refl, (λ _. refl, (λ _. refl, (λ _. refl, (λ _. refl, tt))))),
                    ),
                  ),
                ),
              ),
            ),
          ),
        ),
      ),
    ),
  ),
)

parse_hex-hex_digit : (acc d : ℕ) → d < 16 → parse_hex acc (hex_digit d) ≡ acc * 16 + d
parse_hex-hex_digit acc d h = omega (arith, Valued-get_elem? digits 0 d acc h digits-Valued)

pub parse_hex-hex_digits : (f n : ℕ) → n < 16 ^ f → parse_hex 0 (hex_digits f n) ≡ n
unfolding hex_digits parse_hex
parse_hex-hex_digits zero n h = omega (arith, h)
parse_hex-hex_digits (suc f) n h = elim (Bool-cases (ltb n 16)) [
  | inl one ↦ rw (one, if◌then◌else◌) (omega (arith, parse_hex-hex_digit 0 n (ground arith)))
  | inr more ↦
      let high = parse_hex-hex_digits f (n / 16) (omega (arith, h, pow.suc 16 f)) in
      rw (more, if◌then◌else◌)
        (rw (parse_hex-append (hex_digits f (n / 16)) 0 (hex_digit (n % 16)), high)
          (omega (arith, parse_hex-hex_digit (n / 16) (n % 16) (omega arith))))
]

-- A number that a uint64 holds is read back from its text in base 16.
pub parse_hex-format_hex : (n : ℕ) → n < 2 ^ 64 → parse_hex 0 (format_hex n) ≡ n
unfolding format_hex
parse_hex-format_hex n h = parse_hex-hex_digits 16 n h
