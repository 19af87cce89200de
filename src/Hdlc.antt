-- ===== src/Hdlc.antt =====
-- The HDLC part of the daemon, src/SerialPort/HDLC.
pub mod Fcs16
pub mod Frame
pub mod FrameGenerator
pub mod FrameParser
pub mod AliveState
pub mod ProtocolState
