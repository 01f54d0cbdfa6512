-- ===== src/Common/Text.antt =====
-- Texts: concatenation, decimal numerals, and texts that begin with different letters.
use Prim.Native.Nat.{ℕ, zero, suc, ◌/◌, ◌%◌}
use Prim.Native.String
use Prim.Native.Char.{Char, code}
use Prim.Native.String.{String}
use mathlib.Core.Path.{◌≡◌, refl, ap}
use mathlib.Core.Logic.{◌≢◌}
use text.Mathlib.TextLemmas.{cons-append, head-eq_of_cons-eq}
pub use text.Mathlib.TextLemmas.{append_assoc}
use chain_api.Common.Tests.{nat_eq, if◌then◌else◌}

-- `+` on Go strings.
infixr 65 ◌+++◌
abbrev pub ◌+++◌ : String → String → String
s +++ t = String.◌++◌ s t

abbrev digit : ℕ → String
digit n =
    if nat_eq n 0
    then "0"
    else if nat_eq n 1
    then "1"
    else if nat_eq n 2
    then "2"
    else if nat_eq n 3
    then "3"
    else if nat_eq n 4
    then "4"
    else if nat_eq n 5
    then "5"
    else if nat_eq n 6
    then "6"
    else if nat_eq n 7
    then "7"
    else if nat_eq n 8
    then "8"
    else "9"

-- `fuel` bounds the number of digits.
decimal_from : ℕ → ℕ → String → String
decimal_from zero n acc = acc
decimal_from (suc fuel) n acc =
    let rest = decimal_from fuel (n / 10) (digit (n % 10) +++ acc) in
    if nat_eq (n / 10) 0 then digit (n % 10) +++ acc else rest

-- `%d` of a number that is not negative; `n + 1` rounds are enough, since each divides by ten.
unfoldable pub decimal : ℕ → String
unfolding decimal_from
decimal n = decimal_from (suc n) n ""

decimal_test : decimal 1204 ≡ "1204"
unfolding decimal
decimal_test = refl

-- Keys whose first letters differ are different keys.
pub append-ne :
    (a b : Char) (s t x y : String)
    → code a ≢ code b
    → (String.◌∷◌ a s +++ x) ≢ (String.◌∷◌ b t +++ y)
append-ne a b s t x y h e =
    let consed : String.◌∷◌ a (s +++ x) ≡ String.◌∷◌ b (t +++ y) =
      rw (cons-append a s x, cons-append b t y) at e in
    h (ap code (head-eq_of_cons-eq consed))
