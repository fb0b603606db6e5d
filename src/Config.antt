-- ===== src/Config.antt =====
-- sdr-node/src/node_config.h and node_config.cpp: the channel list and its file.
pub mod Channels
pub mod NodeFile
pub mod IdentityFile
