-- ===== src/Proto.antt =====
-- common/smsc95xx_proto.c: the pure encoders and decoders of the register protocol and of the bulk
-- framing.
pub mod Words
pub mod Mac
pub mod Le32
pub mod Tx
pub mod Rx
pub mod VidPid
