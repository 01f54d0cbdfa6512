-- ===== src/Utils/Tests.antt =====
-- The theorem on `Find` at a list with a text that stands in it twice.
use chain_api.Common.{ℕ, String, ◌≡◌, refl, List, [], ◌∷◌, ◌⊎◌, ◌+◌}
use chain_api.Common.Int.{pos, negsuc}
use chain_api.Utils.{find}
use chain_api.Utils.Membership.{IsAbsent, IsFirst, find_lem}

abbrev items : List String
items = "commit" ∷ "tx" ∷ "commit" ∷ []

find_test : find "tx" items ≡ pos 1
unfolding find
find_test = refl

find_lem_example :
    ((find "tx" items ≡ negsuc 0) × IsAbsent "tx" items)
    ⊎ ((k : ℕ) × (find "tx" items ≡ pos (0 + k)) × IsFirst "tx" items k)
find_lem_example = find_lem "tx" items
