-- ===== src/JsonRpcHandler/Ws/Writer/Prefix.antt =====
-- What the goroutine of `handleWs` of pkg/handler/jsonRpcHandler.go writes of what the channel brings.
use chain_api.Common.{
  ℕ, suc, String, Bool, true, false, ◌≡◌, refl, List, [], ◌∷◌, ◌++◌, ◌⊎◌, map, ap, Result, ok, err,
  Stop, error, panic, Bool-cases, inl, inr, if◌then◌else◌,
}
use chain_api.Common.Int.{pos}
use chain_api.Redis.{Redis}
use chain_api.RateLimit.Limiter.{CacheKeys}
use chain_api.JsonRpc.{JsonRpcErr}
use chain_api.Proxy.WebSocket.{RespData}
use chain_api.JsonRpcHandler.{JsonRpcHandler, rate_limit}
use chain_api.JsonRpcHandler.ClearInfo.{MapCodec}
use chain_api.JsonRpcHandler.Ws.{delivered}
use chain_api.JsonRpcHandler.Ws.Writer.{
  WriterEnd, channel_closed, write_failed, panicked, refused, Written, Peer, written_then,
  after_write, write_loop,
}

module _ (R : Redis) (K : CacheKeys) (M : MapCodec) (h : JsonRpcHandler)
    (api_key request_uri : String) (P : Peer K) where
  -- A text was written at the i-th write, with the database as it was before and after it: for a
  -- notification of a subscription, the limiter was asked for one unit and answered so; for anything
  -- else it was not asked.
  abbrev pub Writes : ℕ → RespData → R.Db → Result (Stop JsonRpcErr) (Unit {0}) → R.Db → Type 0
  Writes i resp d r d' =
      (P.writes i ≡ true)
      × (((resp.subscription ≡ true)
            × (rate_limit R K h (P.now i) (P.time i) api_key (pos 1) d ≡ (r, d')))
          ⊎ ((resp.subscription ≡ false) × (ok tt ≡ r) × (d ≡ d')))

  -- From the i-th write to before the j-th, each text was written and none was refused, the database
  -- of each as the one before it left it.
  abbrev pub Counted : ℕ → R.Db → List RespData → ℕ → R.Db → Type 0
  Counted i d [] j d' = (i ≡ j) × (d ≡ d')
  Counted i d (resp ∷ rest) j d' =
      (d1 : R.Db) × Writes i resp d (ok tt) d1 × Counted (suc i) d1 rest j d'

  -- The last of what was written is a notification for which the limiter then answered this, and what
  -- came after it is unread.
  abbrev pub StopsAt :
      ℕ → R.Db → List RespData → List RespData → List RespData → Stop JsonRpcErr → R.Db → Type 0
  StopsAt i d xs taken unread e d' =
      (before : List RespData) × (last : RespData) × (j : ℕ) × (d1 : R.Db) × (taken
        ≡ before ++ last ∷ [])
      × (last.subscription ≡ true)
      × Writes j last d1 (err e) d'
      × Counted i d before j d1
      × (xs ≡ taken ++ unread)

  -- Why the rest of the channel was not written.
  abbrev pub Rest :
      ℕ → R.Db → List RespData → List RespData → List RespData → WriterEnd → R.Db → Type 0
  Rest i d xs taken unread channel_closed d' =
      (j : ℕ) × (xs ≡ taken) × (unread ≡ []) × Counted i d taken j d'
  Rest i d xs taken unread write_failed d' =
      (lost : RespData) × (j : ℕ) × (xs ≡ taken ++ lost ∷ unread)
      × (P.writes j ≡ false)
      × Counted i d taken j d'
  Rest i d xs taken unread (refused e) d' = StopsAt i d xs taken unread (error e) d'
  Rest i d xs taken unread panicked d' = StopsAt i d xs taken unread panic d'

  abbrev pub IsPrefix : ℕ → List RespData → R.Db → Written × R.Db → Type 0
  IsPrefix i xs d (w, d') =
      (taken : List RespData) × (w.texts ≡ map (delivered M request_uri) taken)
      × Rest i d xs taken w.unread w.ending d'

  module _ (i : ℕ) (resp : RespData) (d d1 : R.Db) (written : Writes i resp d (ok tt) d1) where
    extend_stop :
        (xs taken unread : List RespData) (e : Stop JsonRpcErr) (d' : R.Db)
        → StopsAt (suc i) d1 xs taken unread e d'
        → StopsAt i d (resp ∷ xs) (resp ∷ taken) unread e d'
    extend_stop xs taken unread e d' (before, last, j, d2, p, s, l, c, q) = (
      resp ∷ before,
      last,
      j,
      d2,
      ap (λ ys. resp ∷ ys) p,
      s,
      l,
      (d1, written, c),
      ap (λ ys. resp ∷ ys) q,
    )

    extend :
        (xs taken unread : List RespData) (e : WriterEnd) (d' : R.Db)
        → Rest (suc i) d1 xs taken unread e d'
        → Rest i d (resp ∷ xs) (resp ∷ taken) unread e d'
    extend xs taken unread channel_closed d' (j, p, q, c) =
        (j, ap (λ ys. resp ∷ ys) p, q, (d1, written, c))
    extend xs taken unread write_failed d' (lost, j, p, f, c) =
        (lost, j, ap (λ ys. resp ∷ ys) p, f, (d1, written, c))
    extend xs taken unread (refused e) d' s = extend_stop xs taken unread (error e) d' s
    extend xs taken unread panicked d' s = extend_stop xs taken unread panic d' s

  -- What the answer after a write says of the limiter; only for a notification can it be an error.
  abbrev Answers : ℕ → RespData → R.Db → Result (Stop JsonRpcErr) (Unit {0}) × R.Db → Type 0
  Answers i resp d p =
      Writes i resp d p.0 p.1 × ((e : Stop JsonRpcErr) → p.0 ≡ err e → resp.subscription ≡ true)

  chosen :
      (i : ℕ) (resp : RespData) (d : R.Db) (b : Bool)
      → P.writes i ≡ true
      → resp.subscription ≡ b
      → Answers i resp d
          (if b then rate_limit R K h (P.now i) (P.time i) api_key (pos 1) d else (ok tt, d))
  chosen i resp d true up e = ((up, inl (e, refl)), λ x h. e)
  chosen i resp d false up e = ((up, inr (e, refl, refl)), λ x h. cc)

  after_write-Answers :
      (i : ℕ) (resp : RespData) (d : R.Db)
      → P.writes i ≡ true
      → Answers i resp d (after_write R K M h api_key request_uri P i resp d)
  unfolding after_write
  after_write-Answers i resp d up = chosen i resp d resp.subscription up refl

  written_then-IsPrefix :
      (i : ℕ) (resp : RespData) (rest : List RespData) (d : R.Db) (next : R.Db → Written × R.Db)
      (p : Result (Stop JsonRpcErr) (Unit {0}) × R.Db)
      → Answers i resp d p
      → ((d1 : R.Db) → IsPrefix (suc i) rest d1 (next d1))
      → IsPrefix i
          (resp ∷ rest)
          d
          (written_then R K M h api_key request_uri P (delivered M request_uri resp) rest next p)
  written_then-IsPrefix i resp rest d next (ok tt, d1) a ih =
      let (taken, texts, why) = ih d1 in
      (
        resp ∷ taken,
        ap (λ ts. delivered M request_uri resp ∷ ts) texts,
        extend i resp d d1 a.0 rest taken (next d1).0.unread (next d1).0.ending (next d1).1 why,
      )
  written_then-IsPrefix i resp rest d next (err (error e), d1) (l, s) ih =
      (resp ∷ [], refl, ([], resp, i, d, refl, s (error e) refl, l, (refl, refl), refl))
  written_then-IsPrefix i resp rest d next (err panic, d1) (l, s) ih =
      (resp ∷ [], refl, ([], resp, i, d, refl, s panic refl, l, (refl, refl), refl))

  -- The goroutine writes what comes on the channel in its order and once, each as `delivered` changes
  -- it. Right after the write of each notification of a subscription it asks the limiter for one unit,
  -- at that write's clocks and on the database that the writes before it left, and for nothing else; it
  -- goes on only where the limiter granted it. The last text may be a notification that the limiter then
  -- refused, or at which it panicked: what comes after it is never read. Else the goroutine ends at the
  -- close of the channel, with nothing unread, or at a write that fails, whose text is lost. The
  -- database it leaves is that of the last question.
  pub write_loop-IsPrefix :
      (i : ℕ) (xs : List RespData) (d : R.Db)
      → IsPrefix i xs d (write_loop R K M h api_key request_uri P i xs d)
  unfolding write_loop
  write_loop-IsPrefix i [] d = ([], refl, (i, refl, refl, (refl, refl)))
  write_loop-IsPrefix i (resp ∷ rest) d = elim (Bool-cases (P.writes i)) [
    | inl up ↦
        rw (up, write_loop)
          (written_then-IsPrefix i resp rest d
            (write_loop R K M h api_key request_uri P (suc i) rest)
            (after_write R K M h api_key request_uri P i resp d) (after_write-Answers i resp d up)
            (write_loop-IsPrefix (suc i) rest))
    | inr down ↦ rw (down, write_loop) ([], refl, (resp, i, refl, down, (refl, refl)))
  ]
