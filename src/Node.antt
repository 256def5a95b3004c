-- ===== src/Node.antt =====
-- include/atbus_node.h and src/atbus_node.cpp.
pub mod Table
pub mod State
pub mod Members
pub mod Route
pub mod Send
pub mod Links
