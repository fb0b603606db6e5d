-- ===== src/Node/Queues.antt =====
-- The queues of a Node, of sdr-node/src/node.cpp: packets for the transmitter with the airtime
-- they take, messages for the app, payloads heard of late, and the secrets that are computed once.
use meshcore_open_sdr.Shared.{
  Bool, Option, [], false, none, some, true, ℕ, ◌%◌, ◌*◌, ◌++◌, ◌+◌, ◌-◌, ◌/◌, ◌^◌, ◌||◌, ◌∷◌,
}
use meshcore_open_sdr.Library.{Library}
use meshcore_open_sdr.Node.State.{
  Airtime, Contact, Node, Outcome, PendingAck, PendingReq, Settings, push,
}
use meshcore_open_sdr.Shared.Lists.{keep_last, length}
use meshcore_open_sdr.Shared.Map.{Map, erase_if, find, insert, nat_key, str_key}
use meshcore_open_sdr.Shared.Tests.{if◌then◌else◌, leb, ltb, ◌==◌}
use meshcore_open_sdr.Shared.Text.{Bytes, Str, is_empty, to_lower}

-- Semtech's formula, estimateAirtime. With `q` quarters of a symbol the packet takes
-- q / 4 * 2 ^ sf / bw seconds; the double is infinite for sf = 0 or bw = 0, and `1u << sf` is
-- undefined from 32 on. The settings are taken as natural numbers.
unfoldable pub estimate_airtime : Settings → ℕ → Airtime
estimate_airtime cfg bytes =
    let sf = cfg.tx_sf in
    let groups = (8 * bytes + 44 - 4 * sf + (4 * sf - 1)) / (4 * sf) in
    let quarters = 49 + 32 + 4 * (groups * (cfg.tx_cr + 4)) in
    if sf == 0 || cfg.bw == 0 || leb 32 sf
    then none
    else some (record { num = quarters * 2 ^ sf; den = 4 * cfg.bw })

unfoldable pub add_airtime : Airtime → Airtime → Airtime
add_airtime none b = none
add_airtime (some a) none = none
add_airtime (some a) (some b) =
    some (record { num = a.num * b.den + b.num * a.den; den = a.den * b.den })

-- `(uint32_t)seconds`; of a double that is not finite the conversion is undefined, and 0 here.
unfoldable pub whole_seconds : Airtime → ℕ
whole_seconds none = 0
whole_seconds (some a) = a.num / a.den % 2 ^ 32

unfoldable pub enqueue_tx : Str → Node → Node
unfolding estimate_airtime add_airtime
enqueue_tx hex n = record n {
  tx_air = add_airtime n.tx_air (estimate_airtime n.cfg (length hex / 2));
  tx_queue = n.tx_queue ++ (hex ∷ []);
}

-- `toLower(bytesToHex(bytes))`, the form of packets in the queue and of payloads in `seen_`.
unfoldable pub hex_of : Library → Bytes → Str
unfolding to_lower
hex_of lib bytes = to_lower (lib.bytes_to_hex bytes)

unfoldable pub queue_for_app : Bytes → Node → Outcome
queue_for_app frame n =
    push (record n { inbox = keep_last 256 (n.inbox ++ (frame ∷ [])) }) (0x83 ∷ [])

-- `seen_[payload] = at`
unfoldable pub mark_seen : Str → ℕ → Node → Node
mark_seen payload at n = record n { seen = insert payload at n.seen }

-- `now - then < 600.0` and `now - then > 600.0`, in microseconds.
abbrev pub window : ℕ
window = 600_000_000

abbrev pub is_recent : ℕ → Option ℕ → Bool
is_recent now none = false
is_recent now (some at) = ltb now (at + window)

abbrev pub is_stale : ℕ → ℕ → Bool
is_stale now at = ltb (at + window) now

unfoldable pub sweep : ℕ → Map Str ℕ → Map Str ℕ
sweep now seen = if ltb 4096 (length seen) then erase_if (is_stale now) seen else seen

-- Whether the payload was heard within the window; if not, it is noted.
unfoldable pub seen_before : Str → ℕ → Node → Bool × Node
unfolding sweep
seen_before payload now n =
    if is_recent now (find payload n.seen)
    then (true, n)
    else (false, record n { seen = sweep now (insert payload now n.seen) })

-- `pendingAcks_.push_back(..); while (size > 32) pop_front()`, and 16 for the requests.
unfoldable pub add_pending_ack : PendingAck → Node → Node
add_pending_ack a n = record n { pending_acks = keep_last 32 (n.pending_acks ++ (a ∷ [])) }

unfoldable pub add_pending_req : PendingReq → Node → Node
add_pending_req r n = record n { pending_reqs = keep_last 16 (n.pending_reqs ++ (r ∷ [])) }

-- The contact with its shared secret computed.
unfoldable pub with_secret : Library → Node → Contact → Contact
with_secret lib n c =
    if is_empty c.secret_hex
    then record c {
      secret_hex = lib.key_exchange n.id.private_key_hex (lib.bytes_to_hex c.pub_key);
    }
    else c

-- contactSecret(c) on the map's entry: the secret is cached there.
unfoldable pub cache_secret : Library → Str → Contact → Node → Node
unfolding with_secret
cache_secret lib key c n = record n { contacts = insert key (with_secret lib n c) n.contacts }
