-- ===== src/Proxy/WebSocket/Sends.antt =====
-- `Client.Send` and `SetClosed` of pkg/proxy/websocket.go, called by several goroutines: the mutex is
-- released between the check of `closed` and the send, so anything may come between the two.
use mathlib.Core.List.{append_assoc, append-nil, Permᴰ}
use mathlib.Core.List.Permᴰ
use chain_api.Common.{
  ℕ, suc, Bool, true, false, ◌≡◌, refl, sym, subst, Option, none, some, List, [], ◌∷◌, ◌++◌,
  if◌then◌else◌, Bool-cases, inl, inr,
}
use chain_api.Proxy.WebSocket.{RespData, Client, set_closed, passes_check, deliver, client_send}

-- The client, and the calls of `Client.Send` that are under way: what those have to send that have
-- passed the check, and how many of them have panicked and will close the client.
pub record Sends : Type 0 where
  pub client : Client
  pub checked : List RespData
  pub recovering : ℕ

-- A call begins: it returns at the check, or has a message to send.
abbrev pub begin_send : RespData → Sends → Sends
begin_send resp s = if passes_check s.client then record s { checked = resp ∷ s.checked } else s

-- A call's send, which leaves these messages of the others to send.
abbrev pub end_send : List RespData → Sends → Option Client → Sends
end_send others s none = record s { checked = others; recovering = suc s.recovering }
end_send others s (some c) = record s { client = c; checked = others }

-- What may happen to a client, an access at a time: any call that has passed the check may be the next
-- one to send.
pub data SendStep (s : Sends) : Sends → Type 0 where
  begins : (resp : RespData) → SendStep s (begin_send resp s)
  ends :
      (before after : List RespData) (resp : RespData)
      → s.checked ≡ before ++ resp ∷ after
      → SendStep s (end_send (before ++ after) s (deliver resp s.client))
  recovers :
      (n : ℕ)
      → s.recovering ≡ suc n
      → SendStep s (record s { client = set_closed s.client; recovering = n })
  closes : SendStep s (record s { client = set_closed s.client })
  closes_channel : SendStep s (record s { client = record s.client { channel_closed = true } })

pub data SendReach (s : Sends) : Sends → Type 0 where
  here : SendReach s s
  later : {t u : Sends} → SendReach s t → SendStep t u → SendReach s u

-- After the client was closed in `s`: it stays so, and of the messages that had passed the check by
-- then some were sent since, in some order, some were lost to a closed channel, and the rest waits.
abbrev pub OnlyChecked : Sends → Sends → Type 0
OnlyChecked s t =
    (t.client.closed ≡ true)
    × (sent : List RespData) × (lost : List RespData) × (t.client.received
        ≡ s.client.received ++ sent)
    × Permᴰ s.checked (sent ++ (lost ++ t.checked))

moved :
    (lost before after : List RespData) (resp : RespData)
    → Permᴰ (lost ++ (before ++ resp ∷ after)) (resp ∷ (lost ++ (before ++ after)))
moved lost before after resp =
    Permᴰ.trans (Permᴰ.append_left lost (Permᴰ.middle resp before after))
      (Permᴰ.middle resp lost (before ++ after))

end_send-OnlyChecked :
    (s t : Sends) (before after : List RespData) (resp : RespData)
    → t.checked ≡ before ++ resp ∷ after
    → OnlyChecked s t
    → OnlyChecked s (end_send (before ++ after) t (deliver resp t.client))
end_send-OnlyChecked s t before after resp e (closed, sent, lost, received, perm) =
    let taken : Permᴰ s.checked (sent ++ resp ∷ (lost ++ (before ++ after))) =
      Permᴰ.trans (subst (λ xs. Permᴰ s.checked (sent ++ (lost ++ xs))) e perm)
        (Permᴰ.append_left sent (moved lost before after resp)) in
    elim (Bool-cases t.client.channel_closed) [
      | inl shut ↦ rw shut (closed, sent, resp ∷ lost, received, taken)
      | inr is_open ↦ rw is_open (
        closed,
        sent ++ resp ∷ [],
        lost,
        rw received (append_assoc s.client.received sent (resp ∷ [])),
        subst (Permᴰ s.checked) (sym (append_assoc sent (resp ∷ []) (lost ++ (before ++ after))))
            taken,
      )
    ]

SendStep-OnlyChecked : (s : Sends) {t u : Sends} → SendStep t u → OnlyChecked s t → OnlyChecked s u
unfolding set_closed
SendStep-OnlyChecked s (begins resp) (closed, sent, lost, received, perm) =
    rw closed (refl, sent, lost, received, perm)
SendStep-OnlyChecked s {t} (ends before after resp e) h =
    end_send-OnlyChecked s t before after resp e h
SendStep-OnlyChecked s (recovers n e) (closed, sent, lost, received, perm) =
    (refl, sent, lost, received, perm)
SendStep-OnlyChecked s closes (closed, sent, lost, received, perm) =
    (refl, sent, lost, received, perm)
SendStep-OnlyChecked s closes_channel h = h

-- However the accesses of several goroutines to a client follow each other from a state in which it is
-- closed: it stays closed, and what is sent on its channel from then on are only messages of calls of
-- `Client.Send` that had passed the check before the close, each at most once; no call that begins
-- later sends anything.
pub SendReach-OnlyChecked : {s t : Sends} → s.client.closed ≡ true → SendReach s t → OnlyChecked s t
SendReach-OnlyChecked {s} h here =
    (h, [], [], sym (append-nil s.client.received), Permᴰ.refl s.checked)
SendReach-OnlyChecked {s} h (later r st) = SendStep-OnlyChecked s st (SendReach-OnlyChecked h r)

abbrev idle : Client → Sends
idle c = record { client = c; checked = []; recovering = 0 }

-- `client_send` is one of these runs: that of a call with nothing between its accesses.
client_send-SendReach :
    (resp : RespData) (c : Client) → SendReach (idle c) (idle (client_send resp c))
unfolding client_send set_closed
client_send-SendReach resp c = by_flags c.closed c.channel_closed
  where
    by_flags :
        (closed channel_closed : Bool)
        → let c' : Client = record c { closed = closed; channel_closed = channel_closed } in
          SendReach (idle c') (idle (client_send resp c'))
    by_flags true shut = later here (begins resp)
    by_flags false true =
        later (later (later here (begins resp)) (ends [] [] resp refl)) (recovers 0 refl)
    by_flags false false = later (later here (begins resp)) (ends [] [] resp refl)
