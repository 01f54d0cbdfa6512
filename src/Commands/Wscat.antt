-- ===== src/Commands/Wscat.antt =====
-- cmd/wscat/wscat.go: a terminal for a WebSocket. The connection is a parameter: whether a dial and a
-- write succeed, and what is read. The terminal comes as the chunks that reads of it give, in order.
pub mod Lines
use Prim.Native.Char.{Char, code}
use Prim.Native.String
use chain_api.Common.{
  ℕ, zero, suc, String, Bool, true, false, Option, none, some, List, [], ◌∷◌, ◌++◌, Result, ok, err,
  nat_eq, if◌then◌else◌,
}
use chain_api.Common.Text.{◌+++◌}

pub data WscatError : Type 0 where
  not_dialed not_written not_read : WscatError

-- What happens to the connection and on the terminal.
pub data Event : Type 0 where
  wrote shown : String → Event
  closed : Event

abbrev pub block_number_request : String
block_number_request = "{\"id\":0,\"jsonrpc\":\"2.0\",\"method\":\"eth_blockNumber\",\"params\":[]}"

-- With the flag `eth_blockNumber`, after the dial: one request, and one message read. The deferred close
-- comes after the explicit one.
pub one_shot : Bool → Option String → Result WscatError (Unit {0}) × List Event
one_shot false message = (err not_written, closed ∷ [])
one_shot true none = (err not_read, wrote block_number_request ∷ closed ∷ [])
one_shot true (some message) =
    (ok tt, wrote block_number_request ∷ shown message ∷ closed ∷ closed ∷ [])

-- A chunk up to its first newline, and whether it has one.
pub up_to_newline : String → String × Bool
up_to_newline String.[] = ("", false)
up_to_newline (String.◌∷◌ c s) =
    let rest = up_to_newline s in
    if nat_eq (code c) 10 then (String.◌∷◌ c "", true) else (String.◌∷◌ c rest.0, rest.1)

-- `ReadString` of a new reader: what it returns, and the chunks that it has not read. What it has read
-- beyond the newline is lost with it.
abbrev pub joined_to :
    String → List String → String × Bool → (String → String × List String) → String × List String
joined_to part rest (s, true) next = (part +++ s, rest)
joined_to part rest (s, false) next = next (part +++ s)

pub read_string : String → List String → String × List String
unfolding up_to_newline
read_string part [] = (part, [])
read_string part (chunk ∷ rest) =
    joined_to part rest (up_to_newline chunk) (λ part'. read_string part' rest)

-- The messages of the first `n` rounds of the goroutine that writes; at the end of the input they are
-- empty.
pub typed : ℕ → List String → List String
unfolding read_string
typed zero chunks = []
typed (suc n) chunks = let line = read_string "" chunks in line.0 ∷ typed n line.1

-- The goroutine that reads: a message is shown, and an error ends it.
pub shown_of : List (Option String) → List Event
shown_of [] = []
shown_of (none ∷ rest) = []
shown_of (some message ∷ rest) = shown message ∷ shown_of rest

-- The action of `main`, from the dial: without the flag, the events of the two goroutines until the
-- interrupt, and then the two closes.
pub action :
    Bool → Bool → Bool → Option String → List Event → Result WscatError (Unit {0}) × List Event
unfolding one_shot
action dials eth_block_number writes message events =
    if dials
    then if eth_block_number
      then one_shot writes message
      else (ok tt, events ++ closed ∷ closed ∷ [])
    else (err not_dialed, [])
