-- ===== src/Sensors.antt =====
-- The sensors as the two libraries show them to their users, and their conversion to and from the
-- protocol's messages: cserver/api_sensors.h with the conversions of cserver/cserver.cpp, and
-- client/hdr/interop_sensors.h with client/src/dataconverter.cpp.
pub mod Server
pub mod Client
pub mod Exchange
