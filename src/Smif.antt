-- ===== src/Smif.antt =====
-- src/smif_service.cpp: the handler for service 0x00. Its parts: the responses that it builds, the
-- environment variable commands, the I2C proxy, and the switch over the commands.
pub mod Response
pub mod Ev
pub mod I2c
pub mod Service
