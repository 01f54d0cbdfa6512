-- ===== src/Ipfs/Service/Tests.antt =====
-- The theorems on `Add` of service/ipfsService.go for a directory of two files.
use chain_api.Common.{String, true, ◌≡◌, ◌↔◌, List, [], ◌∷◌, err, panic}
use chain_api.Ipfs.{AddResp, AddParam}
use chain_api.Ipfs.Concrete.{calm, names}
use chain_api.Ipfs.Service.{add}
use chain_api.Ipfs.Service.Storage.{add-panic}

abbrev param : AddParam
param = record { wrap_with_directory = true; pin_status = 1 }

abbrev entry : String → AddResp
entry s = record { name = s; hash = s; size = "60" }

add-panic_example :
    ((add calm names "key" param [] []).0 ≡ err panic)
    ↔ ((param.wrap_with_directory ≡ true) × (◌≡◌ {A = List AddResp} [] []))
add-panic_example = add-panic calm names "key" param [] []

abbrev three : List AddResp
three = entry "a" ∷ entry "b" ∷ entry "dir" ∷ []
