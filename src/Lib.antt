-- ===== src/Lib.antt =====
-- CellBridge: a verification library of the Go gateway and the module agent.
--
-- A phone talks to the gateway, and the gateway to a cellular modem. A phone is paired once and holds
-- tokens that run out. The gateway's call controller is the state machine of the one cellular line;
-- the modem reports and the requests of the phone both reach it as method calls, and two adapters map
-- the modem's call ids. Short messages are cut into parts and encoded as PDUs, which the AT client
-- hands to the modem; the modem's inbox is polled, its PDUs are decoded, and their parts are put
-- together by the multipart assembler. The SMS engine keeps all of this in tables, whose changes go to
-- a log that the phones read. Voice goes in frames of 20 ms through G.711 and a bounded queue, by RTP
-- to the phone. The agent on the modem keeps a bounded journal of numbered events, from which the
-- gateway resumes, and encodes short messages of its own.
--
-- The files, and the code that they model:
--   Base, Dict,      shared notation, texts as lists of runes or bytes, association lists, integers
--   Ints, Strings    with Atoi and Itoa, and what the Go package strings documents
--   Call             gateway/internal/call/state.go. Call/Defs has the data (Call, Event, Controller,
--                    the memo `result` as Stored); Call/Changes the callbacks that Answer,
--                    MarkCellularReady, MarkMediaReady, MarkRecovering, Hangup and RemoteEnded give
--                    to mutate; Call/Controller the methods, DTMF, Rollback and Finish among them;
--                    Call/Emergency IsEmergencyNumber. Call/Ops has the methods that change the
--                    controller as requests, `serve` for one and `run` for a sequence.
--   Sms              gateway/internal/sms/pdu.go: Sms/Gsm7 (CanEncodeGSM7, GSM7Length, encodeGSM7,
--                    decodeGSM7), Sms/Pack (packBits, unpackSeptets), Sms/Address (encodeAddress,
--                    decodeAddress), Sms/Split (splitBody), Sms/Submit (encodeSubmit,
--                    EncodeSubmitSegments), Sms/Decode (DecodePDU, parseConcat); Sms/Utf16 and
--                    Sms/Hex say what the Go packages utf16 and hex document.
--                    gateway/internal/sms/multipart.go: Sms/Multipart (Add, Prune).
--                    gateway/internal/sms/engine.go: Sms/Engine/Ingest, Sms/Engine/Send and
--                    Sms/Engine/Poll (a round of the poll in Run). Sms/Engine/Repeat has the PDUs and
--                    the prunes that come behind a PDU as steps in any order.
--   Voice            gateway/internal/voice/pcm.go: encodeSample, decodeSample, the frame checks,
--                    NewQueue, Push and Pop. gateway/internal/voice/bridge.go: Voice/Bridge, with
--                    the sections that hold the lock, that of Start among them, as events in any
--                    order.
--   Agent            module-agent/internal/events/journal.go: NewJournal, Append, Since, Subscribe.
--                    module-agent/internal/control/sms_pdu.go: Agent/SmsPdu.
--   At               gateway/internal/modem/at/parser.go: Feed, IsFinal, isUnsolicited and the loops
--                    of exchangeLocked and readUntil, over the list of what the port's reads return.
--                    gateway/internal/modem/at/adapter.go: At/Status (normalizeSIM,
--                    normalizeRegistration, parseRSSI, signalBars), At/Inbox (ListSMS) and
--                    At/Submission (SendSMS).
--   Modem            gateway/internal/modem/at/adapter.go: Modem/Adapter (Dial, Answer, Hangup,
--                    SendDTMF, HandleURC). gateway/internal/modem/call_adapter.go:
--                    Modem/ActiveCall.
--   Auth             gateway/internal/auth/auth.go: pairing and tokens; Auth/Tables has the rows of
--                    devices and tokens and their statements in gateway/internal/db/db.go.
--   Db               gateway/internal/db/db.go and schema.sql: the rows, and the statements in
--                    Db/Log, Db/Messages, Db/Segments, Db/Calls and Db/Idempotency.
--   Config           gateway/internal/config/config.go: Config, Default, Validate and
--                    isLoopbackAddress, over the functions of the package net.
--   Sip              gateway/internal/sip/registrar.go: Register, Get and All.
--                    gateway/internal/sip/media.go: Sip/Media (SetRemote, WritePCMU, the receiver).
--                    gateway/internal/sip/session.go: Sip/Session (Dial, AwaitBridge, Hangup).
--   Eventbus         gateway/internal/eventbus/bus.go: Publish, Subscribe and its cancel function.
--
-- A method that runs under a mutex is a function from the state to the new state and the result.
-- Clock readings are arguments, numbers with 0 for the zero time. Runtime panics of DecodePDU are a
-- result of their own. Octets are numbers, with the wrap-around written out where the code
-- converts; the numbers that a journal gives, which are int64, and the int counts of lengths are
-- taken not to overflow, while the number that a client sends may be negative. The lifetime of a
-- registration goes around as an int64.
-- Tables and maps are association lists, tables whose order counts lists of rows; a transaction is one
-- step, which the schema can refuse and nothing else. Random ids, which may fail, hashes, signatures,
-- and the answers of the modem and of sockets are arguments.
-- Maps are association lists without order. The pointers of the call controller do not escape:
-- each method copies what it returns, so the state passes by value.
--
-- Fuel: `parse_concat` has a round for each octet of the header, and a round takes two octets at
-- least; `feed_loop` has one for each byte of the buffer, and a round takes one at least; `decimal` has
-- one for each unit of the number, and a round divides it by ten. The other loops are structural.
--
-- Not modelled: the cancel function of Subscribe, SendPDU and Run of the AT client, Status, Probe
-- and WaitActive of the adapter, the serial port, the list that Prune returns, the queries of the database
-- that only list rows, and the rest of the gateway (SIP server, recording, HTTP, push,
-- WebRTC) and of the agent, much of which is I/O around libraries.
pub mod Base
pub mod Dict
pub mod Db
pub mod Config
pub mod Ints
pub mod Strings
pub mod Call
pub mod Sms
pub mod Voice
pub mod Agent
pub mod At
pub mod Auth
pub mod Modem
pub mod Sip
pub mod Eventbus
