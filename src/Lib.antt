-- ===== src/Lib.antt =====
-- YoAuthorize, the native licensing service and SDK: a client and a service speak a framed,
-- encrypted protocol over a local socket, and the service grants sessions under a signed
-- licence.
--
-- The parts. The service (src/ya_license_service/src/service.cpp) is made from a configuration
-- (config.cpp), key files (key_store.cpp), the machine's identity
-- (src/ya_license_core/src/machine_identity.cpp) and a licence that the validator (license.cpp)
-- accepts; the issuer (tools/license_generator/issuer.cpp) makes such licences. It serves one
-- client after the other over a transport (src/ya_license_transport/src/unix_socket.cpp). For
-- each it has a connection (connection.cpp), which reads one plaintext frame with a client
-- hello, answers it through the handshake (src/ya_license_protocol/src/handshake.cpp), and from
-- then on opens one encrypted record for each frame (record.cpp over frame.cpp). An authorize
-- message asks the session manager (src/ya_license_core/src/session.cpp) for a session under the
-- licence; heartbeats keep it, and closing releases it. The SDK (src/ya_license_sdk) is the
-- other end: a client with a thread of heartbeats (client.cpp), and an authorizer that needs no
-- service (local_authorizer.cpp). Messages are FlatBuffers envelopes (envelope.cpp,
-- messages.cpp), and the primitives are OpenSSL's (src/ya_license_crypto/src/crypto.cpp,
-- handshake.cpp).
--
-- - Prelude, Tables, FlatBuffers: numbers, bytes, results and words; unordered_map as an
--   association list; absent fields as options
-- - OpenSsl: the parameter for OpenSSL, and its documented laws IsAead, IsAgreement and
--   IsSignature
-- - Files: what the calls on a file answer, and the loop that reads a file whole
-- - Crypto: crypto.cpp: one function per function, generateX25519KeyPair as
--   generate_x25519_key_pair and so on; randomness is an argument, what the generator drew
-- - Crypto.Transcript: ya_license_crypto/src/handshake.cpp: encodeTranscript,
--   deriveSessionKeys, makeRecordNonce
-- - Core.License: license.cpp: LicenseValidator::validate in steps; Core.License.Buffers has
--   schema/license.fbs
-- - Core.Session: session.cpp: SessionManager's create, heartbeat, close, expireInactive, size
-- - Core.MachineIdentity: machine_identity.cpp: collectLinuxMachineIdentity over what the
--   reader answers for each path
-- - Protocol.Frame: frame.cpp: encodeHeader, decodeHeader, decodeFrame
-- - Protocol.Record: record.cpp: RecordWriter::seal and RecordReader::open as seal and
--   open_record
-- - Protocol.Envelope: envelope.cpp, and schema/protocol.fbs as records; EnvelopeBuffers is
--   the parameter for the generated code
-- - Protocol.Messages: messages.cpp: the nine encoders and decoders, in Hello and Application
-- - Protocol.Handshake: handshake.cpp: ClientHandshake and ServerHandshake in Client and
--   Server
-- - Transport: transport.h: the interface Transport, with its contract IsTransport;
--   unix_socket.cpp as one implementation: waitFor in Polling, UnixSocketTransport in
--   UnixSocket and Connecting, removeStaleSocket in StaleSocket, UnixSocketListener in
--   Listener
-- - Service.Connection: connection.cpp: the state, and Connection::handle with handleHello in
--   Handling, handleAuthorize in Authorize, handleActive in Active; the shared session manager
--   is passed through
-- - Service.Config, Service.KeyStore: config.cpp: the helpers, and loadConfig in
--   Service.Config.Document, over the parameter Toml for the TOML library; key_store.cpp:
--   loadRawKey and loadKeys
-- - Service.Creation, Service.Loop, Service.Running: service.cpp: create; readFrame and serve
--   over any transport; run over the clients that arrive
-- - Sdk: client.cpp: initialize in Sdk.Client.Initializing, the rounds of heartbeatLoop in
--   Beating, shutdown in Closing, and runs of them in Runs (the other children prove what they
--   leave); local_authorizer.cpp in Sdk.LocalAuthorizer
-- - Tools.Issuer: tools/license_generator/issuer.cpp: issueLicense, over the parameter
--   LicenseBuilder for the FlatBuffers builder
-- - Examples: concrete instances of the parameters, and runs
--
-- State is explicit: a call returns its result beside the object as it leaves it. A result
-- `{.error, .value}` is `ok` or `err`. A 16, 32 or 64-bit number is a natural number, and where
-- the program narrows one the wrap-around is written out.
--
-- The operating system answers from a script: a call that waits, polls or is made again takes
-- its answers from a list, in order, and so do the clock and the random generator. A loop is
-- recursion on that list, and its result is `none` where the list ends before the loop does; a
-- decoder that reads a field through the null pointer of an absent table has the result `none`
-- too. The loop that draws session identifiers ends where there are more distinct draws than
-- sessions. The digits of a number n are written with n + 1 as fuel, more than there are digits.
--
-- What another thread does to a shared object between two steps is part of the script: whether
-- it closes the transport during a connect, or the listener during a listen. Each call under one
-- mutex is one step. The heartbeats of the client's thread are steps between the calls of the
-- others.
--
-- Not modelled: the communication patterns and utilities (src/ya_communicate, src/ya_config,
-- src/ya_json, src/ya_utils), which wrap other libraries and which the licensing does not use;
-- the command lines; the remote backend and frontends. The wiping of keys is modelled where the
-- object lives on. A client's timeout that is negative counts as 0, since it is refused in the
-- same way.
--
-- Paths are those of the repository.
pub mod Prelude
pub mod OpenSsl
pub mod Tables
pub mod FlatBuffers
pub mod Files
pub mod Crypto
pub mod Core
pub mod Protocol
pub mod Transport
pub mod Service
pub mod Sdk
pub mod Tools
pub mod Examples
