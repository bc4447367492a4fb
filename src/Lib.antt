-- ===== src/Lib.antt =====
-- minghe is a SIP server for a small office: extensions register over TLS or UDP, calls and instant
-- messages are routed between them, and RTP media is relayed, with SRTP at either side.
--
-- Parts and files, with paths from the root of the repository:
--   - Srtp: src/media/srtp.rs. Suite has the cipher suites and errors, Header `RtpHeader::parse`,
--     Rollover `estimate_roc` and `update_stream_state_after_success`, Cipher the key derivation, the
--     counter mode, the GCM nonce and the tag, Packet `SrtpCryptoSuite` with `protect_rtp` and
--     `unprotect_rtp`. A call takes the suite and returns the suite that it leaves behind.
--   - Registrar: src/sip/registrar.rs. State is the record of the service, Blocking the failures and
--     blocks of IPs, Nonces the table of nonces, Table the registrations, Digest the credentials,
--     Register `handle_register` in the order of its guards.
--   - Srtp/Sdes: src/media/srtp.rs, the keys as text: `to_sdes_key`, `from_sdes_with_suite`, the
--     `a=crypto` lines and `parse_crypto_attribute`.
--   - Sdp: `rewrite_sdp_with_cryptos` of src/sip/parser.rs, and of src/sip/router.rs the choice of the
--     keys of a description. Sdp/Media mends answers and reads the media address.
--   - Parser: src/sip/parser.rs. Frame cuts messages out of a stream, Header and Fields read fields,
--     Response builds answers. Text has the string operations of Rust that they use.
--   - Message: src/sip/message.rs, the messages kept for extensions that are offline, and their
--     delivery; Message/Request is `handle_message`, which passes a message on or keeps it.
--   - Relay: src/media/relay.rs, the pool of RTP ports and the table of sessions; Relay/Forward is the
--     forwarding of datagrams by the tasks of `run_relay`, each cut to the 2048 bytes of the buffer.
--   - Transport: src/sip/transport.rs, and the choice of a way out of the server, `get_outbound`, that
--     src/sip/router.rs and src/sip/message.rs share.
--   - Outbound: src/sip/router.rs, the texts that the server writes: requests with a new target, Via and
--     Contact (`build_outbound_request_with_from`), and in Outbound/Answer the caller's responses.
--   - Call: src/sip/router.rs, `Router` and its handlers: Invite `handle_invite`, Response
--     `handle_callee_response` with `start_media_relay`, Dialog `handle_ack`, `handle_bye` and
--     `handle_cancel`. Steps is the abstract relation on the state of the router, Runs the runs of
--     handlers in any order, and Outcomes the ends of the handling of a 200.
--   - Server: src/sip/server.rs, the table of connections; Server/Dispatch is `process_sip_message`,
--     which calls the registrar, the router and the message service and gives the connection its
--     extension.
--   - Config: src/config.rs, the checks of `load`, and the registrar and the pool that src/main.rs
--     makes from a configuration.
--   - Transaction: src/sip/transaction.rs, the table of transactions.
--   - Prelude: lists, tests, exclusive or, and `Dict`, an association list for `HashMap`.
--
-- State and environment: a handler runs to its end before the next one starts, and a lock is held for
-- a whole operation, so that each is a function from the state to the next state, what it sends and
-- its answer. The clock, random texts and keys, whether a send succeeds, MD5 (crate md5), Base64 (crate
-- base64), and AES, HMAC and GCM (crates aes, hmac with sha1, aes_gcm) are arguments. What is relied on
-- of the last three is the record IsLawful: the lengths of their results, and that GCM decrypts what it
-- encrypted; of Base64 it is IsBase64: its alphabet, and that it decodes what it encoded. A panic
-- leaves the state that the handler has reached, also what it has written to a call in place; under the
-- write lock of the calls it also leaves the lock poisoned. Log lines are left out, but for one whose
-- argument can panic, before the 404 of an INVITE; warnings are on, as they are by default.
--
-- Bounds: a number of w bits wraps where the source computes on it, as in a release build. Texts are
-- lists of bytes, and their operations are those of Rust on ASCII. A slice out of range is the value
-- `panics`. The loop of the port pool takes 262148 rounds of fuel, which every range of u16 ports
-- stays below; the loop of the key derivation takes as many rounds as bytes are to be filled.
--
-- Not modelled: sockets, TLS handshakes, time-outs and the loops around them (src/sip/server.rs,
-- `run_relay`), the interleaving of two handlers of calls at their awaits, the parsing of TOML and of IP
-- addresses, the detection of the server's address, TLS set-up (src/tls.rs) and the start-up but for
-- what it makes of the configuration. They are input and output, or calls of other libraries.
pub mod Prelude
pub mod Text
pub mod Parser
pub mod Srtp
pub mod Registrar
pub mod Message
pub mod Relay
pub mod Transport
pub mod Outbound
pub mod Call
pub mod Server
pub mod Config
pub mod Transaction
pub mod Sdp
