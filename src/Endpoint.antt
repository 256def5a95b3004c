-- ===== src/Endpoint.antt =====
-- include/atbus_endpoint.h and src/atbus_endpoint.cpp.
pub mod Domain
pub mod Select
