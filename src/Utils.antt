-- ===== src/Utils.antt =====
-- pkg/utils: array.go, number.go, and `JqQueryFirst` of string.go.
-- The packages encoding/json and gojq, and floating-point numbers, are parameters.
mod Tests
pub mod Membership
use Prim.Native.Char.{code}
use Prim.Native.String
use chain_api.Common.{
  ℕ, zero, suc, ◌+◌, ◌-◌, ◌*◌, ◌^◌, String, Bool, true, false, ◌||◌, ◌&&◌, Option, none, some, List,
  [], ◌∷◌, Result, ok, err, ◌==◌, if◌then◌else◌, leb, ltb,
}
use chain_api.Common.Int.{ℤ, pos, negsuc, eq_ℤ}
use chain_api.Common.Strings.{has_prefix, contains, trim_prefix}

-- The loop of `Find`, from position `i`.
find_from : ℕ → String → List String → ℤ
find_from i str [] = negsuc 0
find_from i str (item ∷ rest) =
    let later = find_from (suc i) str rest in if item == str then pos i else later

unfoldable pub find : String → List String → ℤ
unfolding find_from
find str str_list = find_from 0 str str_list

unfoldable pub is_in : String → List String → Bool
unfolding find
is_in str str_list = elim (eq_ℤ (find str str_list) (negsuc 0)) [ true ↦ false | false ↦ true ]

pub data NumberError : Type 0 where
  syntax range float_overflow : NumberError

abbrev pub max_uint64 : ℕ
max_uint64 = 2 ^ 64 - 1

-- The value of a digit, in any base up to 16.
digit_value : ℕ → Option ℕ
digit_value c =
    if leb b'0' c && leb c b'9'
    then some (c - b'0')
    else if leb b'a' c && leb c b'f'
    then some (c - b'a' + 10)
    else if leb b'A' c && leb c b'F'
    then some (c - b'A' + 10)
    else none

-- `strconv.ParseUint` with 64 bits, on the digits that are left. A digit beyond the base is a syntax
-- error, and so is one after an overflow: the loop of `ParseUint` stops at the first fault.
parse_digits : ℕ → ℕ → String → Result NumberError ℕ
parse_digits base n String.[] = ok n
parse_digits base n (String.◌∷◌ c rest) = elim (digit_value (code c)) [
  | none ↦ err syntax
  | some d ↦
      let longer = parse_digits base (n * base + d) rest in
      if leb base d then err syntax else if ltb max_uint64 (n * base + d) then err range else longer
]

unfoldable pub parse_uint : String → ℕ → Result NumberError ℕ
unfolding parse_digits digit_value
parse_uint s base = if s == "" then err syntax else parse_digits base 0 s

-- What `ToUint64` does with float64 values.
pub record Floats : Type 1 where
  pub Float : Type 0
  pub parse_float : String → Option Float
  -- `v > float64(math.MaxUint64)`
  pub exceeds_max_uint64 : Float → Bool
  pub is_negative : Float → Bool
  -- the conversion `uint64(v)`
  pub truncate : Float → ℕ

unfoldable pub to_uint64 : Floats → String → Result NumberError ℕ
to_uint64 F s =
    if has_prefix s "0x"
    then parse_uint (trim_prefix s "0x") 16
    else if contains s "."
    then elim (F.parse_float s) [
      | some v ↦
          if F.exceeds_max_uint64 v || F.is_negative v
          then err float_overflow
          else ok (F.truncate v)
      | none ↦ parse_uint s 10
    ]
    else parse_uint s 10

-- A value that a gojq iterator yields: an error that stops the iteration quietly, another error, a
-- text, or any other value with what `%v` prints of it.
pub data JqValue : Type 0 where
  halt_nil failed : JqValue
  str other : String → JqValue

pub record Jq : Type 1 where
  pub Json : Type 0
  pub Query : Type 0
  pub parse : String → Option Query
  pub unmarshal : String → Option Json
  pub run : Query → Json → List JqValue

pub data JqError : Type 0 where
  bad_json query_failed no_result : JqError

-- The loop of `JqQueryFirst` returns or breaks in its first round.
first_value : List JqValue → Result JqError String
first_value [] = err no_result
first_value (halt_nil ∷ rest) = err no_result
first_value (failed ∷ rest) = err query_failed
first_value (str s ∷ rest) = ok s
first_value (other s ∷ rest) = ok s

unfoldable pub jq_query_first : (J : Jq) → String → J.Query → Result JqError String
unfolding first_value
jq_query_first J input query = elim (J.unmarshal input) [
  | none ↦ err bad_json
  | some json ↦ first_value (J.run query json)
]
