-- ===== src/RpcHandler/Forward/Socket.antt =====
-- pkg/handler/rpcHandler.go: `dialWs`, and `Ws` from the choice of a node to its return. What the dial, the
-- upgrade give is a parameter.

use chain_api.Common.{
  ℕ, String, Bool, true, false, ◌≡◌, refl, ap, subst, ok-injective, Option, none, some, Result, ok,
  err, if◌then◌else◌,
}
use chain_api.Common.Text.{◌+++◌, decimal}
use chain_api.RpcHandler.{RpcHandler}
use chain_api.RpcHandler.Forward.{Http, ForwardError, internal_server_error, ws_address}

-- The body of the answer to a dial that failed: nil, its text, or the error of its reading.
pub data DialBody : Type 0 where
  no_body : DialBody
  content unreadable : String → DialBody

pub record DialResponse : Type 0 where
  pub status_code : ℕ
  pub body : DialBody

-- What the dialer returns: a connection, or an error and perhaps an answer.
pub data Dialed : Type 0 where
  connected : Dialed
  failed : String → Option DialResponse → Dialed

abbrev body_text : DialBody → String
body_text no_body = " body: <nil>"
body_text (content s) = " body: " +++ s
body_text (unreadable e) = " body: <nil>: read resp body error: " +++ e

abbrev response_text : Option DialResponse → String
response_text none = "<nil>"
response_text (some resp) = decimal resp.status_code +++ body_text resp.body

-- `dialWs`: nil, or the text of its error.
pub dial_ws : Dialed → Option String
dial_ws connected = none
dial_ws (failed e resp) =
    some ("failed to dial websocket: " +++ e +++ "\nresponse: " +++ response_text resp)

-- The rest of `Ws` after the dial: bytes are copied between the client and the address, both ways.
abbrev pub piped : String → Option String → Result ForwardError String
piped address none = ok address
piped address (some e) = err internal_server_error

abbrev pub upgraded_ws : Bool → (String → Dialed) → String → Result ForwardError String
upgraded_ws upgrades dial address =
    if upgrades then piped address (dial_ws (dial address)) else err internal_server_error

abbrev pub connected_ws :
    Bool → (String → Dialed) → Result ForwardError String → Result ForwardError String
connected_ws upgrades dial (err e) = err e
connected_ws upgrades dial (ok address) = upgraded_ws upgrades dial address

-- `Ws`: the address with which the client is connected.
pub ws :
    {Query : Type 0}
    → Http
    → Bool
    → (String → Dialed)
    → RpcHandler Query
    → Result ForwardError String
unfolding dial_ws
ws H upgrades dial h = connected_ws upgrades dial (ws_address H h)

-- The node answers a dial with a status and a text.
dial_ws_test :
    dial_ws (failed "bad handshake" (some (record { status_code = 403; body = content "no" })))
    ≡ some "failed to dial websocket: bad handshake\nresponse: 403 body: no"
unfolding dial_ws decimal
dial_ws_test = refl

-- A dial without an error is a connection.
dialled :
    (address : String) (d : Dialed) {a : String}
    → piped address (dial_ws d) ≡ ok a
    → (address ≡ a) × (d ≡ connected)
unfolding dial_ws
dialled address connected e = (ok-injective e, refl)
dialled address (failed x resp) e = cc

connected_lem :
    (upgrades : Bool) (dial : String → Dialed) (r : Result ForwardError String) (a : String)
    → connected_ws upgrades dial r ≡ ok a
    → (r ≡ ok a) × (upgrades ≡ true) × (dial a ≡ connected)
connected_lem upgrades dial (err x) a e = cc
connected_lem false dial (ok address) a e = cc
connected_lem true dial (ok address) a e =
    let (same, up) = dialled address (dial address) e in
    (ap ok same, refl, subst (λ b. dial b ≡ connected) same up)

-- A client that `Ws` connects is connected with the address that was chosen for it, after an upgrade and
-- a dial of that address that succeeded.
pub ws-connected :
    {Query : Type 0} (H : Http) (upgrades : Bool) (dial : String → Dialed) (h : RpcHandler Query)
    (a : String)
    → ws H upgrades dial h ≡ ok a
    → (ws_address H h ≡ ok a) × (upgrades ≡ true) × (dial a ≡ connected)
unfolding ws
ws-connected H upgrades dial h a e = connected_lem upgrades dial (ws_address H h) a e
