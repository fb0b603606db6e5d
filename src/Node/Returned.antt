-- ===== src/Node/Returned.antt =====
-- The path return that a node sends for a text message that flooded, against the branch of
-- onRxPacket in sdr-node/src/node.cpp that takes such a return apart at the other end.
use meshcore_open_sdr.Shared.{
  Bool, List, [], ap, arith, false, inl, inr, refl, some, suc, true, zero, ℕ, ◌%◌, ◌++◌, ◌+◌, ◌∙◌,
  ◌∷◌, ◌≡◌, ◌≢◌,
}
use meshcore_open_sdr.Library.{DecryptedText, Library}
use meshcore_open_sdr.Node.Answers.{
  PathReturn, accept_path, ack_bytes, confirm, confirmation, learn_path, parse_path, path_plain,
  take_ack, use_extra,
}
use meshcore_open_sdr.Node.Files.{persist_contacts}
use meshcore_open_sdr.Node.Sending.{path_bytes_of}
use meshcore_open_sdr.Node.State.{
  Ambient, Contact, Node, PendingAck, RxPacket, clock_u32, pushed_first,
}
use meshcore_open_sdr.Shared.Lists.{
  drop, get_or, get_or-drop, length, length-append, replicate, take, take-append,
}
use meshcore_open_sdr.Shared.Map.{find, find-insert_other, find-insert_self, nat_key, str_key}
use meshcore_open_sdr.Shared.Tests.{Bool-cases, if◌then◌else◌, leb}
use meshcore_open_sdr.Shared.Text.{Bytes, Str}
use meshcore_open_sdr.Wire.{IsU32}
use meshcore_open_sdr.Wire.Words.{get_u32-u32}
use mathlib.Core.List.{append_assoc}
use native.Mathlib.Nat.{mod-eq_of_lt}

-- A packed path length and the path of so many bytes.
abbrev pub IsPath : ℕ × Bytes → Type 0
IsPath (len, path) = length path ≡ path_bytes_of len

parts_length :
    (path : Bytes) (t : ℕ) (extra : Bytes)
    → length (path ++ (t ∷ extra)) ≡ length path + 1 + length extra
parts_length path t extra = omega (arith, length-append path (t ∷ extra))

at_end :
    (path : Bytes) (k t : ℕ) (extra : Bytes)
    → length path ≡ k
    → get_or (path ++ (t ∷ extra)) k 0 ≡ t
at_end [] zero t extra h = refl
at_end [] (suc k) t extra h = absurd (omega arith)
at_end (x ∷ path) zero t extra h = absurd (omega arith)
at_end (x ∷ path) (suc k) t extra h = at_end path k t extra (omega arith)

behind :
    (path : Bytes) (k t : ℕ) (extra : Bytes)
    → length path ≡ k
    → drop (suc k) (path ++ (t ∷ extra)) ≡ extra
behind [] zero t extra h = refl
behind [] (suc k) t extra h = absurd (omega arith)
behind (x ∷ path) zero t extra h = absurd (omega arith)
behind (x ∷ path) (suc k) t extra h = behind path k t extra (omega arith)

read_plain :
    (len : ℕ) (path : Bytes) (t : ℕ) (extra : Bytes)
    → IsPath (len, path)
    → parse_path (path_plain (len, path) t extra)
      ≡ some (record { len = len; path = path; extra_type = t % 16; extra = extra })
unfolding parse_path
read_plain len path t extra h =
    let tail = path ++ (t ∷ extra) in
    let e : leb (suc (length tail)) (1 + path_bytes_of len) ≡ false =
      ground (arith, parts_length path t extra) in
    let e1 : take (path_bytes_of len) tail ≡ path =
      take-append (path_bytes_of len) path (t ∷ extra) h in
    let e2 : get_or (len ∷ tail) (1 + path_bytes_of len) 0 ≡ t =
      get_or-drop 1 (path_bytes_of len) (len ∷ tail) 0
      ∙ at_end path (path_bytes_of len) t extra h in
    let two : 2 + path_bytes_of len ≡ suc (suc (path_bytes_of len)) = omega arith in
    let e3 : drop (2 + path_bytes_of len) (len ∷ tail) ≡ extra =
      ap (λ k. drop k (len ∷ tail)) two ∙ behind path (path_bytes_of len) t extra h in
    rw (e, e1, e2, e3)

-- The plaintext as it comes out of the decryption: with zeros behind it, up to a whole block.
abbrev pub padded : ℕ → Bytes → Bytes
padded pad plain = plain ++ replicate pad 0

-- The path and the type that a return was built of are read from its padded plaintext, of the type
-- four bits, and the extra with the padding behind it. The path has as many bytes as its packed
-- length says.
pub parse_path-path_plain :
    (len : ℕ) (path : Bytes) (t : ℕ) (extra : Bytes) (pad : ℕ)
    → IsPath (len, path)
    → parse_path (padded pad (path_plain (len, path) t extra))
      ≡ some
          (record { len = len; path = path; extra_type = t % 16; extra = extra ++ replicate pad 0 })
parse_path-path_plain len path t extra pad h =
    ap parse_path (append_assoc (len ∷ path) (t ∷ extra) (replicate pad 0))
    ∙ read_plain len path t (extra ++ replicate pad 0) h

use_extra_ack :
    (key : Str) (p : PathReturn) (pkt : RxPacket) (n : Node) (ack : ℕ) (m : DecryptedText)
    (env : Ambient) (pad : ℕ)
    → IsU32 ack
    → p.extra_type ≡ 3
    → p.extra ≡ ack_bytes ack m env ++ replicate pad 0
    → use_extra key p pkt n ≡ confirm ack pkt.time n
unfolding use_extra
use_extra_ack key p pkt n ack m env pad w e e' =
    let long : leb 4 (length (ack_bytes ack m env ++ replicate pad 0)) ≡ true = ground arith in
    rw (e, e', long)
      (ap (λ a. confirm a pkt.time n)
        (get_u32-u32 ack (m.attempt ∷ env.random 0 ∷ replicate pad 0) ∙ mod-eq_of_lt w))

accept_path_lem :
    (lib : Library) (env : Ambient) (pkt : RxPacket) (key : Str) (c : Contact) (plain : Bytes)
    (n : Node) (p : PathReturn)
    → parse_path plain ≡ some p
    → let learned = learn_path lib env key c p n in
      accept_path lib env pkt key c plain n
      ≡ pushed_first learned.pushes (use_extra key p pkt learned.node)
unfolding accept_path
accept_path_lem lib env pkt key c plain n p e = rw (accept_path, e)

learn_path-learned :
    (lib : Library) (env : Ambient) (key : Str) (c : Contact) (p : PathReturn) (n : Node)
    → let o = learn_path lib env key c p n in
      (find key o.node.contacts
        ≡ some (record c { out_path_len = p.len; out_path = p.path; last_mod = clock_u32 env }))
      × ((other : Str) → key ≢ other → find other o.node.contacts ≡ find other n.contacts)
      × (o.pushes ≡ (if n.app then (0x81 ∷ c.pub_key) ∷ [] else []))
      × (o.node.pending_acks ≡ n.pending_acks)
      × (o.node.app ≡ n.app)
unfolding learn_path persist_contacts
learn_path-learned lib env key c p n = elim (Bool-cases env.writable) [
  | inl e ↦ rw e (
    find-insert_self key _ n.contacts,
    (λ other h. find-insert_other key other _ n.contacts h),
    refl,
    refl,
    refl,
  )
  | inr e ↦ rw e (
    find-insert_self key _ n.contacts,
    (λ other h. find-insert_other key other _ n.contacts h),
    refl,
    refl,
    refl,
  )
]

confirm-confirmed :
    (ack now : ℕ) (n : Node) (a : PendingAck) (rest : List PendingAck)
    → take_ack ack n.pending_acks ≡ some (a, rest)
    → ((confirm ack now n).node ≡ record n { pending_acks = rest })
      × ((confirm ack now n).pushes ≡ (if n.app then confirmation ack a.sent_at now ∷ [] else []))
unfolding confirm
confirm-confirmed ack now n a rest e = rw (confirm, e) (refl, refl)

both_pushed :
    (app app' : Bool) (f g : Bytes)
    → app' ≡ app
    → (if app then f ∷ [] else []) ++ (if app' then g ∷ [] else [])
      ≡ (if app then f ∷ g ∷ [] else [])
both_pushed true app' f g e = rw e
both_pushed false app' f g e = rw e

-- The return for an acknowledged message, padded as it is decrypted, as the sender of the message
-- takes it: the contact has the route as it was travelled from then on and is otherwise as it was
-- but for its time of change, no other contact changes, the first message that waits for the
-- acknowledgement is taken off the list, and a connected app is told of the route and then of the
-- acknowledgement. The path has as many bytes as its packed length says, and the acknowledgement
-- is a word of 32 bits and is waited for.
pub accept_path-path_plain :
    (lib : Library) (env env' : Ambient) (pkt : RxPacket) (key : Str) (c : Contact) (n : Node)
    (path : ℕ × Bytes) (ack : ℕ) (m : DecryptedText) (pad : ℕ) (a : PendingAck)
    (rest : List PendingAck)
    → IsPath path
    → IsU32 ack
    → take_ack ack n.pending_acks ≡ some (a, rest)
    → let o =
        accept_path lib env pkt key c (padded pad (path_plain path 3 (ack_bytes ack m env'))) n in
      (find key o.node.contacts
        ≡ some (record c { out_path_len = path.0; out_path = path.1; last_mod = clock_u32 env }))
      × ((other : Str) → key ≢ other → find other o.node.contacts ≡ find other n.contacts)
      × (o.node.pending_acks ≡ rest)
      × (o.pushes
          ≡ (if n.app then (0x81 ∷ c.pub_key) ∷ confirmation ack a.sent_at pkt.time ∷ [] else []))
accept_path-path_plain lib env env' pkt key c n (len, path) ack m pad a rest h w waits =
    let p : PathReturn = record {
      len = len;
      path = path;
      extra_type = 3;
      extra = ack_bytes ack m env' ++ replicate pad 0;
    } in
    let learned = learn_path lib env key c p n in
    let (found, others, told_app, waiting_for, connected) = learn_path-learned lib env key c p n in
    let (node_is, pushes_are) =
      confirm-confirmed ack pkt.time learned.node a rest (ap (take_ack ack) waiting_for ∙ waits) in
    let e =
      accept_path_lem lib env pkt key c _ n p
        (parse_path-path_plain len path 3 (ack_bytes ack m env') pad h)
      ∙ ap (pushed_first learned.pushes)
          (use_extra_ack key p pkt learned.node ack m env' pad w refl refl) in
    rw e (
      ap (λ (o : Node). find key o.contacts) node_is ∙ found,
      (λ other k. ap (λ (o : Node). find other o.contacts) node_is ∙ others other k),
      ap (λ (o : Node). o.pending_acks) node_is,
      rw (told_app, pushes_are) (both_pushed n.app learned.node.app _ _ connected),
    )
