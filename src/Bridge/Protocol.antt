-- ===== src/Bridge/Protocol.antt =====
-- A bridge among its peers, by the rules of gem5's timing protocol: a peer that refused a packet
-- owes one retry, a sender that was refused waits for the retry, a response answers a request that
-- was forwarded and brings its sender states back, and an event runs at the time it was set to.
use pard_gem.Prelude.{
  ℕ, zero, suc, ◌≤◌, ◌≡◌, Bool, true, false, not, List, [], ◌∷◌, none, some, Result, ok, ◌>>=◌,
  if◌then◌else◌, get_elem?,
}
use pard_gem.Mem.Packet.{Packet, expects_response}
use pard_gem.Bridge.{
  Bridge, Kind, tags, plain, Deferred, recv_timing_req, recv_timing_resp, process_send_req,
  process_send_resp, recv_retry_master, recv_retry_slave, Sent,
}

-- `req_blocked` and `resp_blocked`: the peer refused the head of that queue and owes a retry.
-- `in_flight`: the requests sent on that await a response.
pub record World : Type 0 where
  pub bridge : Bridge
  pub now : ℕ
  pub req_blocked : Bool
  pub resp_blocked : Bool
  pub in_flight : List Packet

-- What can happen next, each at a time `t`; `edge` is the clock edge from which the bridge counts.
pub data Action : Type 0 where
  request : Packet → ℕ → ℕ → Action
  response : ℕ → Packet → ℕ → ℕ → Action
  req_event resp_event req_retry resp_retry : Bool → ℕ → ℕ → Action

abbrev pub remove_at : List Packet → ℕ → List Packet
remove_at [] k = []
remove_at (p ∷ ps) zero = ps
remove_at (p ∷ ps) (suc k) = p ∷ remove_at ps k

-- A TagBridge is sent packets without a DSid.
abbrev pub IsUntagged : Kind → Packet → Type 0
IsUntagged (tags d) pkt = pkt.ds_id ≡ none
IsUntagged plain pkt = Unit {0}

abbrev pub InTime : World → ℕ → ℕ → Type 0
InTime w t edge = (w.now ≤ t) × (t ≤ edge)

abbrev pub Enabled : World → Action → Type 0
Enabled w (request pkt t edge) =
    InTime w t edge × (w.bridge.retry_req ≡ false) × IsUntagged w.bridge.kind pkt
Enabled w (response k pkt t edge) =
    InTime w t edge
    × ((sent : Packet) × (get_elem? w.in_flight k ≡ some sent)
        × (pkt.sender_state ≡ sent.sender_state))
Enabled w (req_event sent t edge) = InTime w t edge × (w.bridge.send_req_at ≡ some t)
Enabled w (resp_event sent t edge) = InTime w t edge × (w.bridge.send_resp_at ≡ some t)
Enabled w (req_retry sent t edge) = InTime w t edge × (w.req_blocked ≡ true)
Enabled w (resp_retry sent t edge) = InTime w t edge × (w.resp_blocked ≡ true)

-- The requests that await a response, after the head of the queue was sent or not.
abbrev pub launch : List Deferred → Bool → List Packet → List Packet
launch (req ∷ _) true flight = if expects_response req.pkt then req.pkt ∷ flight else flight
launch _ _ flight = flight

after_req : World → Bool → ℕ → Sent → World
after_req w sent t (b, _) = record w {
  bridge = b;
  now = t;
  req_blocked = not sent;
  in_flight = launch w.bridge.requests sent w.in_flight;
}

after_resp : World → Bool → ℕ → Sent → World
after_resp w sent t (b, _) = record w { bridge = b; now = t; resp_blocked = not sent }

unfoldable pub run : World → Action → Result World
unfolding after_req after_resp
run w (request pkt t edge) = do
  (_, _, b) ← recv_timing_req w.bridge pkt edge
  ok (record w { bridge = b; now = t })
run w (response k pkt t edge) = do
  b ← recv_timing_resp w.bridge pkt edge
  ok (record w { bridge = b; now = t; in_flight = remove_at w.in_flight k })
run w (req_event sent t edge) =
    process_send_req w.bridge sent t edge >>= λ r. ok (after_req w sent t r)
run w (resp_event sent t edge) =
    process_send_resp w.bridge sent t edge >>= λ r. ok (after_resp w sent t r)
run w (req_retry sent t edge) =
    recv_retry_master w.bridge sent t edge >>= λ r. ok (after_req w sent t r)
run w (resp_retry sent t edge) =
    recv_retry_slave w.bridge sent t edge >>= λ r. ok (after_resp w sent t r)

unfoldable pub run_all : World → List Action → Result World
unfolding run
run_all w [] = ok w
run_all w (a ∷ rest) = run w a >>= λ w'. run_all w' rest
