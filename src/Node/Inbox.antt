-- ===== src/Node/Inbox.antt =====
-- The inbox of a Node of sdr-node/src/node.cpp and CMD_SYNC_NEXT_MESSAGE.
use meshcore_open_sdr.Shared.{List, [], ap, refl, suc, zero, ℕ, ◌++◌, ◌∷◌, ◌≡◌}
use meshcore_open_sdr.Node.Contacts.{sync_next_message}
use meshcore_open_sdr.Node.State.{Node}
use meshcore_open_sdr.Shared.Lists.{length}
use meshcore_open_sdr.Shared.Text.{Bytes}

-- The replies to so many CMD_SYNC_NEXT_MESSAGE, one after another.
pub sync_replies : ℕ → Node → List Bytes
sync_replies zero n = []
sync_replies (suc k) n = let o = sync_next_message n in o.replies ++ sync_replies k o.node

sync_replies_at :
    (m : List Bytes) (n : Node)
    → n.inbox ≡ m
    → sync_replies (suc (length m)) n ≡ m ++ ((10 ∷ []) ∷ [])
unfolding sync_replies sync_next_message
sync_replies_at [] n e = rw e
sync_replies_at (x ∷ m) n e = rw e (ap (◌∷◌ x) (sync_replies_at m (record n { inbox = m }) refl))

-- Asking for messages until none is left gives those of the inbox, the oldest first, each once,
-- and then the frame that says so.
pub sync_replies_all :
    (n : Node) → sync_replies (suc (length n.inbox)) n ≡ n.inbox ++ ((10 ∷ []) ∷ [])
sync_replies_all n = sync_replies_at n.inbox n refl
