-- ===== src/JsonRpcHandler/ClearInfo/Hidden.antt =====
-- What `changeRPCAddress` of pkg/handler/jsonRpcHandler.go leaves of an address.
use chain_api.Common.{String, ◌≡◌, refl, some, ◌==◌, Bool-cases, inl, inr}
use chain_api.JsonRpcHandler.ClearInfo.{
  Json, object, other, Fields, empty, field, lookup, assign, within, clear_address,
  change_rpc_address,
}

lookup-assign :
    (key : String) (v w : Json) (fields : Fields)
    → lookup key fields ≡ some v
    → lookup key (assign key w fields) ≡ some w
unfolding lookup assign
lookup-assign key v w empty e = cc
lookup-assign key v w (field name u rest) e = elim (Bool-cases (name == key)) [
  | inl same ↦ rw (same, same) refl
  | inr differs ↦ rw (differs, differs) (lookup-assign key v w rest (rw differs at e))
]

lookup-within :
    (key : String) (f : Fields → Fields) (fields inner : Fields)
    → lookup key fields ≡ some (object inner)
    → lookup key (within key f fields) ≡ some (object (f inner))
lookup-within key f fields inner e =
    rw e (lookup-assign key (object inner) (object (f inner)) fields e)

lookup-clear_address :
    (fields : Fields) (v : Json)
    → lookup "rpc_address" fields ≡ some v
    → lookup "rpc_address" (clear_address (lookup "rpc_address" fields) fields) ≡ some (other "")
lookup-clear_address fields v e = rw e (lookup-assign "rpc_address" v (other "") fields e)

-- An object at the end of the path from the result to the node's other data.
abbrev pub Reaches : Fields → Fields → Type 0
Reaches fields data_of =
    (result : Fields) × (node_info : Fields) × (lookup "result" fields ≡ some (object result))
    × (lookup "node_info" result ≡ some (object node_info))
    × (lookup "other" node_info ≡ some (object data_of))

-- Where the path `result`, `node_info`, `other` of an answer reaches an object with an `rpc_address`,
-- the same path of the changed answer reaches an object whose `rpc_address` is empty.
pub change_rpc_address-Reaches :
    (fields data_of : Fields) (address : Json)
    → Reaches fields data_of
    → lookup "rpc_address" data_of ≡ some address
    → (cleared : Fields) × Reaches (change_rpc_address fields) cleared
      × (lookup "rpc_address" cleared ≡ some (other ""))
unfolding change_rpc_address
change_rpc_address-Reaches fields data_of address (result, node_info, r, n, o) e =
    let f : Fields → Fields = λ g. clear_address (lookup "rpc_address" g) g in
    let g : Fields → Fields = within "other" f in
    let h : Fields → Fields = within "node_info" g in
    (
      f data_of,
      (
        h result,
        g node_info,
        lookup-within "result" h fields result r,
        lookup-within "node_info" g result node_info n,
        lookup-within "other" f node_info data_of o,
      ),
      lookup-clear_address data_of address e,
    )
