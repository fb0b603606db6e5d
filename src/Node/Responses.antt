-- ===== src/Node/Responses.antt =====
-- onContactResponse of sdr-node/src/node.cpp: a decrypted response is matched to the request that
-- waits for it, and handed to the app in the form that the request's kind asks for.
use meshcore_open_sdr.Shared.{
  Bool, List, Option, [], none, some, ℕ, ◌&&◌, ◌++◌, ◌+◌, ◌/◌, ◌||◌, ◌∷◌,
}
use meshcore_open_sdr.Node.Queues.{queue_for_app}
use meshcore_open_sdr.Node.State.{Contact, Kind, Node, Outcome, PendingReq, push, quiet}
use meshcore_open_sdr.Shared.Lists.{drop, get_or, length, take, truncate}
use meshcore_open_sdr.Shared.Tests.{if◌then◌else◌, leb, ltb, ◌==◌}
use meshcore_open_sdr.Shared.Text.{Bytes, str_eq, until_nul}
use meshcore_open_sdr.Wire.{get_u32, u32}

abbrev pub request_window : ℕ
request_window = 60_000_000

-- `it->pubKey == c.pubKey && (it->tag == tag || now - it->sentAt < 60.0)`
abbrev pub answers : Bytes → ℕ → ℕ → PendingReq → Bool
answers pub_key tag now r =
    str_eq r.pub_key pub_key && (r.tag == tag || ltb now (r.sent_at + request_window))

-- The first request that is answered, and the others in their order.
unfoldable pub take_pending :
    Bytes → ℕ → ℕ → List PendingReq → Option (PendingReq × List PendingReq)
take_pending pub_key tag now [] = none
take_pending pub_key tag now (r ∷ rs) =
    let later : Option (PendingReq × List PendingReq) = elim (take_pending pub_key tag now rs) [
      | none ↦ none
      | some (q, qs) ↦ some (q, r ∷ qs)
    ] in
    if answers pub_key tag now r then some (r, rs) else later

abbrev pub max_frame : ℕ
max_frame = 172

-- The answer to a login: success in the old form ("OK") or the new one, or failure.
unfoldable pub login_push : Contact → Bytes → ℕ → Bytes
login_push c body tag =
    let legacy_ok = leb 6 (length body) && (get_or body 4 0 == 79 && get_or body 5 0 == 75) in
    let new_ok = leb 13 (length body) && get_or body 4 0 == 0 in
    if new_ok
    then (0x85 ∷ get_or body 6 0 ∷ take 6 c.pub_key)
      ++ (u32 tag ++ (get_or body 7 0 ∷ get_or body 12 0 ∷ []))
    else if legacy_ok
    then 0x85 ∷ 0 ∷ take 6 c.pub_key
    else 0x86 ∷ 0 ∷ take 6 c.pub_key

-- The CLI_DATA message that carries a repeater's reply.
unfoldable pub cli_message : Contact → Bytes → ℕ → Bytes
unfolding until_nul
cli_message c body now = truncate max_frame (
    (16 ∷ 0 ∷ 0 ∷ 0 ∷ take 6 c.pub_key)
    ++ ((c.out_path_len ∷ 1 ∷ [])
        ++ (u32 (now / 1_000_000) ++ (until_nul (drop 4 body) ++ (0 ∷ [])))))

-- What goes out for a request of each kind.
unfoldable pub deliver : Contact → Bytes → ℕ → ℕ → Kind → Node → Outcome
unfolding login_push cli_message queue_for_app
deliver c body tag now Kind.login n = push n (login_push c body tag)
deliver c body tag now Kind.telemetry n =
    push n (truncate max_frame ((0x8B ∷ 0 ∷ take 6 c.pub_key) ++ drop 4 body))
deliver c body tag now Kind.path_discovery n =
    push n (truncate max_frame ((0x8D ∷ 0 ∷ take 6 c.pub_key) ++ drop 4 body))
deliver c body tag now Kind.binary n =
    push n (truncate max_frame ((0x8C ∷ 0 ∷ u32 tag) ++ drop 4 body))
deliver c body tag now Kind.anon n =
    push n (truncate max_frame ((0x8C ∷ 0 ∷ u32 tag) ++ drop 4 body))
deliver c body tag now Kind.cli n = queue_for_app (cli_message c body now) n
deliver c body tag now Kind.status n =
    push n (truncate max_frame ((0x87 ∷ 0 ∷ take 6 c.pub_key) ++ drop 4 body))

-- The request is taken off the list also where no app is connected to hear of the answer.
unfoldable pub on_contact_response : Contact → Bytes → ℕ → Node → Outcome
unfolding get_u32
on_contact_response c body now n =
    let tag = get_u32 body 0 in
    if ltb (length body) 4 then quiet n else elim (take_pending c.pub_key tag now n.pending_reqs) [
      | none ↦ quiet n
      | some (req, rest) ↦
          let n' : Node = record n { pending_reqs = rest } in
          if n.app then deliver c body tag now req.kind n' else quiet n'
    ]
