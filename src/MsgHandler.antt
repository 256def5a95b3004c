-- ===== src/MsgHandler.antt =====
-- src/atbus_msg_handler.cpp: what a node does with a message that it receives.
pub mod Transfer
pub mod Register
pub mod Dispatch
