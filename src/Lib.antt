-- ===== src/Lib.antt =====
-- A model of sdr-node, the daemon that gives the MeshCore app a node built from two software
-- defined radios (sdr-node/src).
--
-- The app talks to companion_server.cpp over TCP: frames of at most 172 bytes behind a start
-- byte and a length. The server hands each frame to Node::handleCommand of node.cpp, which
-- answers through the same connection and queues packets for the transmitter. The receiver hands
-- each packet to Node::onRxPacket, which answers on the air and pushes frames to the app. The
-- threads share the Node under one mutex.
--
-- - Shared: what the others use. Lists measured with native numbers (Lists), texts as lists of
--   bytes (Text), std::map as a sorted association list (Map), Boolean tests (Tests), integers
--   (Int), decimal output with std::getline (Decimal), and fgets, strtol and sscanf (Scan, with
--   their laws in Scan/Numbers, Scan/Fields and Scan/Lines).
-- - Wire: putU32, getU32 and the signed bytes of signal strengths. Words has their laws.
-- - Library: the calls of the library meshcore-cpp-decoder, a submodule that is not in the
--   repository, as a record of functions which every definition takes as an argument; its laws
--   are named hypotheses (HexInverts).
-- - Config: node_config.cpp. Channels is loadChannels, saveChannels and trim, with the file
--   against itself (RoundTrip); NodeFile is NodeConfig::load, with Last on which line decides;
--   IdentityFile is NodeIdentity::loadOrCreate, with Again on the next start.
-- - Node: node.h and node.cpp. State has the data; Files what is written to disk; Queues the
--   helpers with state (enqueueTx, queueForApp, seenBefore, contactSecret); Frames the three
--   frames that are built in functions of their own; Settings, Contacts, Sending, Datagrams and
--   Requests the commands, one function for each case or handler; Command the switch of
--   handleCommand; Responses onContactResponse; Loading loadContactsFile and loadPrefs; Start
--   the constructor; Hearing and Answers the branches of onRxPacket, and Receive onRxPacket
--   itself; Run the threads as steps in any order, txWorker with them, and ~Node.
-- - Node, the proofs: Dedup (seenBefore), Invariant with its children (queue limits and maps),
--   Answering (one answer to a command), Slots (channels), Inbox, Syncing and Entries
--   (contacts), ContactFrames (the contact's frame), the children of Loading (the files against
--   what was written, Columns, Rows, Table and PrefsFile; damaged files, Corrupt and Nameless),
--   Start/Again (a restart) and Start/Durable (an end at any time), Pending (what is waited
--   for), Trials (who sent a packet), Returned (path returns), Air (what onRxPacket does to
--   seen_ and the transmit queue, and what it leaves alone), Repeats (a payload that is heard
--   again), Connection with its children (the connection of the app, the channels and the
--   settings under commands and packets), Echoes (what a command queues is noted), and under Run
--   the transmitter: Transmitter (it drains), Order (the order of packets) and Stopping (its
--   end).
-- - Server: companion_server.cpp. Framing is sendFrame and the read loop, with Stream and Resync
--   for its laws; Session is serveClient for one client, with Chunks; Clients is the accept loop
--   of run with the other threads, with Held on the pushes that wait for the app; Greeting is on
--   the self info.
-- - Radio: radio_sdr.cpp. Radio itself has the command lines and the outcome of a transmission,
--   Reader is readPipe, with Pairing on which line a frame belongs to, and Supervisor is
--   superviseLoop with start and stop as steps in any order, with Receivers on how many
--   receivers there are.
-- - Daemon: main of main.cpp up to the listening server, with Again on what every start has in
--   common.
-- - Tests: a library, a node and packets on which the theorems are tried.
--
-- A handler is a function from the node, the frame or packet and the surroundings (Ambient:
-- clock, rand, whether files can be written) to an Outcome: the node after it, its replies and
-- its pushes. An exception that leaves a handler is `none`. A time that the source keeps in a
-- double is a natural number of microseconds, a coordinate the bit pattern of a double in the
-- settings (its conversions are functions of Library) and of the int32_t that the code makes of
-- it elsewhere, a signal strength a whole number of hundredths of a decibel, and airtime a
-- fraction; the words of 32 bits wrap around as written. Log lines are left out.
--
-- Floating-point numbers of the configuration and of the receiver's output are values of a type
-- that is a parameter, with atof and the bit pattern of a double; a number that does not fit is
-- cut off as glibc does it. The derivation of a public key is a parameter (DerivesFromSeed has
-- its laws).
--
-- The read loop is the one loop that is not structural: drain runs on fuel, and the buffer's
-- length is enough, since every round but the last takes a byte at least.
--
-- Not modelled: the making of the sockets (CompanionServer::run), fork, exec and the pipes of
-- the radios (spawn_pipe), the signal handler of main.cpp, and the sub-steps at which a handler
-- releases the mutex: what a handler does to the node is one step, while its pushes go out in
-- steps of their own where the client can change meanwhile (Server/Clients). The app in Dart,
-- the platform runners and the generator of test packets are other programs.
pub mod Shared
pub mod Wire
pub mod Library
pub mod Config
pub mod Node
pub mod Radio
pub mod Server
pub mod Daemon
pub mod Tests
