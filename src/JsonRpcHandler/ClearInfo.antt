-- ===== src/JsonRpcHandler/ClearInfo.antt =====
-- pkg/handler/jsonRpcHandler.go: `clearInfo` and `changeRPCAddress`, which hide a node's address.
-- encoding/json is a parameter at the type of JSON objects.
pub mod Hidden
use chain_api.Common.{String, Option, none, some, not, ◌&&◌, ◌==◌, if◌then◌else◌}
use chain_api.Common.Strings.{contains}

-- A JSON value: an object with its fields, or any other value as a text.
mutual
  pub data Json : Type 0 where
    object : Fields → Json
    other : String → Json

  pub data Fields : Type 0 where
    empty : Fields
    field : String → Json → Fields → Fields

-- What `Unmarshal` and `Marshal` do at `map[string]interface{}`.
pub record MapCodec : Type 0 where
  pub unmarshal_map : String → Option Fields
  pub marshal_map : Fields → Option String

unfoldable pub lookup : String → Fields → Option Json
lookup key empty = none
lookup key (field name value rest) =
    let later = lookup key rest in if name == key then some value else later

-- A map has a key once: the first field with the name is the one that changes.
pub assign : String → Json → Fields → Fields
assign key new empty = empty
assign key new (field name value rest) =
    let later = assign key new rest in
    if name == key then field name new rest else field name value later

-- Changes the value at a key if it is an object.
abbrev at_object : (Fields → Fields) → Option Json → String → Fields → Fields
at_object f none key fields = fields
at_object f (some (other s)) key fields = fields
at_object f (some (object inner)) key fields = assign key (object (f inner)) fields

abbrev within : String → (Fields → Fields) → Fields → Fields
within key f fields = at_object f (lookup key fields) key fields

abbrev clear_address : Option Json → Fields → Fields
clear_address none fields = fields
clear_address (some v) fields = assign "rpc_address" (other "") fields

pub change_rpc_address : Fields → Fields
unfolding lookup assign
change_rpc_address = within "result" (
    within "node_info"
      (within "other" (λ fields. clear_address (lookup "rpc_address" fields) fields)))

module _ (M : MapCodec) where
  -- A text that is no object is answered with nothing at all; an error is `none`.
  abbrev cleared : Option Fields → Option String
  cleared none = some ""
  cleared (some fields) = M.marshal_map (change_rpc_address fields)

  pub clear_info : String → String → String → Option String
  clear_info request_uri raw request_path =
      if not (contains request_uri "tendermint")
      then some raw
      else if contains request_path "status" && contains raw "rpc_address"
      then cleared (M.unmarshal_map raw)
      else some raw
