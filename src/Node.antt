-- ===== src/Node.antt =====
-- The mesh node of sdr-node/src/node.h and node.cpp: its state and what it does on a command of
-- the app and on a packet of the radio.
pub mod State
pub mod Files
pub mod Loading
pub mod Start
pub mod Queues
pub mod Frames
pub mod Settings
pub mod Contacts
pub mod Sending
pub mod Datagrams
pub mod Requests
pub mod Command
pub mod Responses
pub mod Hearing
pub mod Answers
pub mod Receive
pub mod Dedup
pub mod Invariant
pub mod Pending
pub mod Run
pub mod Answering
pub mod Slots
pub mod Echoes
pub mod Air
pub mod Repeats
pub mod Connection
pub mod Returned
pub mod Trials
pub mod ContactFrames
pub mod Entries
pub mod Inbox
pub mod Syncing
