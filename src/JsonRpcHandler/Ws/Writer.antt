-- ===== src/JsonRpcHandler/Ws/Writer.antt =====
-- pkg/handler/jsonRpcHandler.go: the goroutine of `handleWs` that writes to the client what comes on the
-- channel. Whether the i-th write succeeds and the clocks of the limiter are parameters. What the
-- channel brings until it is closed is a list; none of it is nil, which would end the goroutine too.
pub mod Prefix
use chain_api.Common.{
  ℕ, suc, String, Bool, true, false, List, [], ◌∷◌, Exec, Result, ok, err, Stop, error, panic,
  if◌then◌else◌,
}
use chain_api.Common.Int.{pos}
use chain_api.Redis.{Redis}
use chain_api.RateLimit.Limiter.{CacheKeys}
use chain_api.JsonRpc.{JsonRpcErr}
use chain_api.Proxy.WebSocket.{RespData}
use chain_api.JsonRpcHandler.{JsonRpcHandler, rate_limit}
use chain_api.JsonRpcHandler.ClearInfo.{MapCodec}
use chain_api.JsonRpcHandler.Ws.{delivered}

-- Why the goroutine returns.
pub data WriterEnd : Type 0 where
  channel_closed write_failed panicked : WriterEnd
  refused : JsonRpcErr → WriterEnd

-- What it wrote, what it left on the channel, and why it returned.
pub record Written : Type 0 where
  pub texts : List String
  pub unread : List RespData
  pub ending : WriterEnd

abbrev pub with_text : String → Written → Written
with_text text w = record w { texts = text ∷ w.texts }

-- What the goroutine's surroundings do.
pub record Peer (K : CacheKeys) : Type 0 where
  pub writes : ℕ → Bool
  pub now : ℕ → K.Time
  pub time : ℕ → K.Time

module _ (R : Redis) (K : CacheKeys) (M : MapCodec) (h : JsonRpcHandler)
    (api_key request_uri : String) (P : Peer K) where
  -- A notification of a subscription is counted, after it was written.
  pub after_write : ℕ → RespData → Exec R.Db (Stop JsonRpcErr) (Unit {0})
  after_write i resp d =
      if resp.subscription
      then rate_limit R K h (P.now i) (P.time i) api_key (pos 1) d
      else (ok tt, d)

  -- After a write, with what the limiter answered.
  abbrev pub written_then :
      String
      → List RespData
      → (R.Db → Written × R.Db)
      → Result (Stop JsonRpcErr) (Unit {0}) × R.Db
      → Written × R.Db
  written_then text rest next (ok u, d) = let r = next d in (with_text text r.0, r.1)
  written_then text rest next (err (error e), d) =
      (record { texts = text ∷ []; unread = rest; ending = refused e }, d)
  written_then text rest next (err panic, d) =
      (record { texts = text ∷ []; unread = rest; ending = panicked }, d)

  -- The goroutine, from its i-th write.
  pub write_loop : ℕ → List RespData → R.Db → Written × R.Db
  unfolding after_write delivered
  write_loop i [] d = (record { texts = []; unread = []; ending = channel_closed }, d)
  write_loop i (resp ∷ rest) d =
      let next = λ (d' : R.Db). write_loop (suc i) rest d' in
      if P.writes i
      then written_then (delivered M request_uri resp) rest next (after_write i resp d)
      else (record { texts = []; unread = rest; ending = write_failed }, d)
