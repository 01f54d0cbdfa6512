-- ===== src/RpcHandler/Forward.antt =====
-- pkg/handler/rpcHandler.go: `Http`, `ExtraWriteHttp`, `forwardHttpRequest`, and
-- the choice of a node of `Ws`.
-- The packages net, net/http and net/textproto are parameters: how a header's name is spelled, how an
-- address splits, which requests can be made, and what the client returns.
pub mod Headers
mod Socket
mod Tests
use chain_api.Common.{
  ℕ, String, Bool, true, false, not, Option, none, some, List, [], ◌∷◌, map, Result, ok, err, ◌==◌,
  if◌then◌else◌,
}
use chain_api.Common.Text.{◌+++◌}
use chain_api.Common.Strings.{trim_prefix, trim_left, trim_right, trim_space, split, join}
use chain_api.RpcHandler.{
  Node, RpcHandler, get_healthy_node, get_healthy_extra_write_node, get_healthy_ws_node,
}

-- `http.Header`: the values of the canonical names.
abbrev pub Header : Type 0
Header = List (String × List String)

pub values : Header → String → Option (List String)
values [] key = none
values ((name, vs) ∷ rest) key =
    let later = values rest key in if name == key then some vs else later

pub remove : String → Header → Header
remove key [] = []
remove key ((name, vs) ∷ rest) =
    let later = remove key rest in if name == key then later else (name, vs) ∷ later

pub record Incoming : Type 0 where
  pub method : String
  pub path : String
  pub header : Header
  pub body : String
  pub remote_addr : String

pub record Outgoing : Type 0 where
  pub method : String
  pub url : String
  pub header : Header
  pub body : String

pub record Response : Type 0 where
  pub status : ℕ
  pub header : Header
  pub body : String

pub record Http : Type 0 where
  -- `textproto.CanonicalMIMEHeaderKey`
  pub canonical : String → String
  -- the host of `net.SplitHostPort`
  pub split_host : String → Option String
  -- whether `http.NewRequest` takes the method and the address
  pub is_request : String → String → Bool
  -- `http.DefaultClient.Do`: an error, or a response
  pub do_request : Outgoing → Option Response

pub data ForwardError : Type 0 where
  internal_server_error bad_remote_addr : ForwardError

-- What the client is answered: the status, one value for each header, and the body.
pub record Answer : Type 0 where
  pub status : ℕ
  pub header : List (String × String)
  pub body : String

abbrev pub hop_by_hop_headers : List String
hop_by_hop_headers =
    "Connection" ∷ "Keep-Alive" ∷ "Proxy-Authenticate" ∷ "Proxy-Authorization" ∷ "TE" ∷ "Trailer"
    ∷ "Upgrade" ∷ []

module _ (H : Http) where
  open H use {canonical}

  abbrev first_value : Option (List String) → String
  first_value none = ""
  first_value (some []) = ""
  first_value (some (v ∷ rest)) = v

  -- `Header.Get`, `Header.Del` and `Header.Set`
  abbrev pub get : Header → String → String
  get h key = first_value (values h (canonical key))

  abbrev pub del : String → Header → Header
  del key h = remove (canonical key) h

  pub set : String → String → Header → Header
  unfolding remove
  set key value h = (canonical key, value ∷ []) ∷ del key h

  pub del_all : List String → Header → Header
  unfolding remove
  del_all [] h = h
  del_all (key ∷ rest) h = del_all rest (del key h)

  -- the names that the first `Connection` header lists
  pub connection_headers : Header → List String
  unfolding values
  connection_headers h =
      if get h "Connection" == "" then [] else map trim_space (split (get h "Connection") ",")

  abbrev pub forwarded_for : Option (List String) → String → String
  forwarded_for none ip = ip
  forwarded_for (some []) ip = ip
  forwarded_for (some (v ∷ rest)) ip = join (v ∷ rest) ", " +++ ", " +++ ip

  -- The header that is sent on, for a client's address.
  pub forwarded_header : Header → String → Header
  unfolding values del_all connection_headers set
  forwarded_header h ip =
      set "X-Forwarded-For" (forwarded_for (values h "X-Forwarded-For") ip)
        (set "X-Real-IP" ip (del_all hop_by_hop_headers (del_all (connection_headers h) h)))

  abbrev answered : Option Response → Result ForwardError Answer
  answered none = err internal_server_error
  answered (some r) = ok (record {
    status = r.status;
    header = map (λ kv. (kv.0, join kv.1 ",")) r.header;
    body = r.body;
  })

  pub forward_http_request : Incoming → String → Result ForwardError Answer
  unfolding forwarded_header
  forward_http_request req url =
      if not (H.is_request req.method url)
      then err internal_server_error
      else elim (H.split_host req.remote_addr) [
        | none ↦ err bad_remote_addr
        | some ip ↦ answered (
            H.do_request (record {
              method = req.method;
              url = url;
              header = forwarded_header req.header ip;
              body = req.body;
            }))
      ]

  -- The address at a node for what follows the handler's own path.
  pub target_url : String → String → String
  target_url address path = if path == "" then address else trim_right address "/" +++ "/" +++ path

  abbrev pub rest_of_path : String → String → String
  rest_of_path prefix path = trim_left (trim_prefix path prefix) "/"

  abbrev forward_to : Option String → String → Incoming → Result ForwardError Answer
  forward_to none path req = err internal_server_error
  forward_to (some address) path req = forward_http_request req (target_url address path)

  abbrev pub http_address : Option Node → Option String
  http_address none = none
  http_address (some n) = some n.rpc_node.http

  abbrev pub extra_write_address : Option Node → Option String
  extra_write_address none = none
  extra_write_address (some n) = some n.rpc_node.extra_write

  module _ {Query : Type 0} (api_key : String) where
    pub http : RpcHandler Query → Incoming → Result ForwardError Answer
    http h req =
        forward_to (http_address (get_healthy_node h))
          (rest_of_path ("/rpc/" +++ h.config.chain_name +++ "/" +++ api_key) req.path) req

    pub extra_write_http : RpcHandler Query → Incoming → Result ForwardError Answer
    extra_write_http h req =
        forward_to (extra_write_address (get_healthy_extra_write_node h))
          (rest_of_path ("/ew_rpc/" +++ h.config.chain_name +++ "/" +++ api_key) req.path) req

  -- `Ws`: the address to which the client is connected; the two connections are then copied.
  pub ws_address : {Query : Type 0} → RpcHandler Query → Result ForwardError String
  ws_address h = elim (get_healthy_ws_node h) [
    | none ↦ err internal_server_error
    | some n ↦ ok n.rpc_node.ws
  ]
