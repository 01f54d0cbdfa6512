-- ===== src/Common/Strings.antt =====
-- The functions of Go's package strings that the program calls, over texts.
use Prim.Native.Char.{Char, code}
use Prim.Native.Nat.{ℕ}
use Prim.Native.String.{String}
use mathlib.Core.Bool.{Bool, true, false, ◌&&◌, ◌||◌}
use mathlib.Core.Option.{Option, none, some}
use mathlib.Core.List.{List, [], ◌∷◌}
use chain_api.Common.Tests.{nat_eq, leb, ◌==◌, if◌then◌else◌}
use chain_api.Common.Text.{◌+++◌}

-- What follows a prefix.
unfoldable pub strip : String → String → Option String
strip String.[] s = some s
strip (String.◌∷◌ c p) String.[] = none
strip (String.◌∷◌ c p) (String.◌∷◌ d s) =
    let rest = strip p s in if nat_eq (code c) (code d) then rest else none

unfoldable pub has_prefix : String → String → Bool
unfolding strip
has_prefix s p = elim (strip p s) [ none ↦ false | some _ ↦ true ]

unfoldable pub trim_prefix : String → String → String
unfolding strip
trim_prefix s p = elim (strip p s) [ none ↦ s | some rest ↦ rest ]

unfoldable pub contains : String → String → Bool
unfolding has_prefix
contains String.[] t = t == ""
contains (String.◌∷◌ c s) t = has_prefix (String.◌∷◌ c s) t || contains s t

-- The cut set is one letter.
unfoldable pub trim_left : String → Char → String
trim_left String.[] cut = ""
trim_left (String.◌∷◌ c s) cut =
    let rest = trim_left s cut in if nat_eq (code c) (code cut) then rest else String.◌∷◌ c s

unfoldable pub trim_right : String → Char → String
trim_right String.[] cut = ""
trim_right (String.◌∷◌ c s) cut =
    let rest = trim_right s cut in
    if rest == "" && nat_eq (code c) (code cut) then "" else String.◌∷◌ c rest

-- The separator is one letter; there is always a first part.
unfoldable pub split_from : String → String → Char → List String
split_from part String.[] sep = part ∷ []
split_from part (String.◌∷◌ c s) sep =
    let closed = part ∷ split_from "" s sep in
    let longer = split_from (part +++ String.◌∷◌ c "") s sep in
    if nat_eq (code c) (code sep) then closed else longer

unfoldable pub split : String → Char → List String
unfolding split_from
split s sep = split_from "" s sep

unfoldable pub join : List String → String → String
join [] sep = ""
join (s ∷ []) sep = s
join (s ∷ t ∷ rest) sep = s +++ sep +++ join (t ∷ rest) sep

-- The white space of `strings.TrimSpace` and `bytes.TrimSpace`, in ASCII.
is_space : ℕ → Bool
is_space c = nat_eq c 32 || leb 9 c && leb c 13

trim_space_left : String → String
unfolding is_space
trim_space_left String.[] = ""
trim_space_left (String.◌∷◌ c s) =
    let rest = trim_space_left s in if is_space (code c) then rest else String.◌∷◌ c s

trim_space_right : String → String
unfolding is_space
trim_space_right String.[] = ""
trim_space_right (String.◌∷◌ c s) =
    let rest = trim_space_right s in
    if rest == "" && is_space (code c) then "" else String.◌∷◌ c rest

unfoldable pub trim_space : String → String
unfolding trim_space_left trim_space_right
trim_space s = trim_space_right (trim_space_left s)

-- The first and the last letter.
unfoldable pub first_code : String → Option ℕ
first_code String.[] = none
first_code (String.◌∷◌ c s) = some (code c)

unfoldable pub last_code : String → Option ℕ
last_code String.[] = none
last_code (String.◌∷◌ c String.[]) = some (code c)
last_code (String.◌∷◌ c (String.◌∷◌ d s)) = last_code (String.◌∷◌ d s)
