-- ===== src/Parser.antt =====
-- sip/parser.rs: SIP messages as text. The parts are the framing of a byte stream, the fields that
-- are read from a message, the responses, and the rewriting of SDP.
pub mod Frame
pub mod Header
pub mod Fields
pub mod Response
