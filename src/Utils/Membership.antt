-- ===== src/Utils/Membership.antt =====
-- `Find` and `In` of pkg/utils/array.go against positions in a list.
use chain_api.Common.{
  ℕ, zero, suc, ◌+◌, ◌<◌, String, Bool, true, false, ◌≡◌, ◌≢◌, refl, ap, ◌∙◌, ◌⊎◌, inl, inr, some,
  List, [], ◌∷◌, get_elem?, any, ◌==◌, arith, eq_iff, Bool-cases,
}
use chain_api.Common.Int.{ℤ, pos, negsuc, eq_ℤ}
use chain_api.Utils.{find_from, find, is_in}

-- The first element equal to `str` is at position `i`.
abbrev pub IsFirst : String → List String → ℕ → Type 0
IsFirst str items i =
    (get_elem? items i ≡ some str) × ((j : ℕ) → j < i → get_elem? items j ≢ some str)

-- No element is equal to `str`.
abbrev pub IsAbsent : String → List String → Type 0
IsAbsent str items = (j : ℕ) → get_elem? items j ≢ some str

abbrev Finds : String → List String → ℕ → ℤ → Type 0
Finds str items from found =
    ((found ≡ negsuc 0) × IsAbsent str items)
    ⊎ ((k : ℕ) × (found ≡ pos (from + k)) × IsFirst str items k)

module _ (str item : String) (rest : List String) (differs : (item == str) ≡ false) where
  not-some : some item ≢ some str
  not-some e = let same : item ≡ str = cc in let yes = (eq_iff item str).1 same in cc

  IsAbsent-cons : IsAbsent str rest → IsAbsent str (item ∷ rest)
  IsAbsent-cons h zero = not-some
  IsAbsent-cons h (suc j) = h j

  IsFirst-cons : (k : ℕ) → IsFirst str rest k → IsFirst str (item ∷ rest) (suc k)
  IsFirst-cons k (here, before) = (here, λ j. earlier j)
    where
      earlier : (j : ℕ) → j < suc k → get_elem? (item ∷ rest) j ≢ some str
      earlier zero h = not-some
      earlier (suc j) h = before j (omega arith)

  Finds-cons : (i : ℕ) (found : ℤ) → Finds str rest (suc i) found → Finds str (item ∷ rest) i found
  Finds-cons i found (inl (e, absent)) = inl (e, IsAbsent-cons absent)
  Finds-cons i found (inr (k, e, first)) = inr (suc k, e ∙ ap pos (shift i k), IsFirst-cons k first)
    where
      shift : (i k : ℕ) → suc i + k ≡ i + suc k
      shift i k = omega arith

find_from_lem :
    (i : ℕ) (str : String) (items : List String) → Finds str items i (find_from i str items)
unfolding find_from
find_from_lem i str [] = inl (refl, λ j e. cc)
find_from_lem i str (item ∷ rest) = elim (Bool-cases (item == str)) [
  | inl same ↦
      rw same (
        inr
          (zero, ap pos (omega arith), (ap some ((eq_iff item str).0 same), λ j h e. omega arith)))
  | inr differs ↦ rw differs (Finds-cons str item rest differs i _ (find_from_lem (suc i) str rest))
]

-- `Find` gives the first position of a text in a list, and -1 exactly where the list does not hold it.
pub find_lem : (str : String) (items : List String) → Finds str items 0 (find str items)
unfolding find
find_lem str items = find_from_lem 0 str items

abbrev flip : Bool → Bool
flip b = elim b [ true ↦ false | false ↦ true ]

flip-flip : (b : Bool) → flip (flip b) ≡ b
flip-flip true = refl
flip-flip false = refl

found_at :
    (i : ℕ) (str : String) (items : List String)
    → eq_ℤ (find_from i str items) (negsuc 0) ≡ flip (any (λ item. item == str) items)
unfolding find_from
found_at i str [] = refl
found_at i str (item ∷ rest) = elim (Bool-cases (item == str)) [
  | inl same ↦ rw same (ground arith)
  | inr differs ↦ rw differs (found_at (suc i) str rest)
]

-- `In` as a search of the list.
pub is_in-any :
    (str : String) (items : List String) → is_in str items ≡ any (λ item. item == str) items
unfolding is_in find
is_in-any str items = ap flip (found_at 0 str items) ∙ flip-flip (any (λ item. item == str) items)
