-- ===== src/Lib.antt =====
-- Models of the Go side of CordCode MacBridge, with the theorems that make them correct.
--
-- The bridge on the Mac (go-bridge) pairs with phones and talks to them directly or through a
-- public relay (relay-server). A phone pairs by claiming a pairing session, which the user approves
-- or rejects; claims pass a gate that limits their rate. A paired phone is a trusted device, kept
-- in a file, and authenticates with its token. While a phone is away its frames wait in the
-- bridge's mailbox, one for each device, and in the relay's store. The relay limits the rate of its
-- requests, and passes sealed claims and their results between a phone and the bridge. A phone reads
-- the messages of a session page by page: the bridge keeps an index of the transcript file that the
-- agent writes (transcriptindex), which locates its messages, and limits the bytes of a page.
--
--   Base        Names that all files share: Boolean tests, lists over the native numbers, and
--               Base.Dict, an association list for Go's maps with the lemmas on get, put, remove
--               and a sweep; Base.Text, parts of Go's package strings; and Base.Codec, what is
--               assumed of JSON with base64.
--   Pairing     go-bridge/pairing_session.go (Session: PairingSession and its Claim, Approve,
--               Reject, Complete) and go-bridge/pairing_hardening.go (Bucket: slidingBucket; Gate:
--               pairingAttemptGate with acquire, release, recordPairingFailure and
--               resetPairingFailures).
--   Devices     go-bridge/trusted_device_store.go: MemoryDeviceStore (with Replace, Index and
--               Revoked for its proofs), FileDeviceStore in Devices.File, and ValidateDeviceAuth
--               with ValidateTokenPrefix of go-bridge/device_token.go.
--   Mailbox     go-bridge/relay_mailbox.go: MailboxService with Enqueue, Fetch, Ack, Expire,
--               ClearForDevice and Stats.
--   RelayFrames relay-server/internal/relay/store.go: the frames that wait for one device
--               (AppendFrame, FetchFrames, AckFrames, ExpireFrames, RegisterDevice, RevokeDevice).
--   RelayClaims relay-server/internal/relay/store.go: the pairing claims that pass through the
--               relay (SubmitPairingClaim, VerifyPairingCapability, PendingClaims,
--               CompletePairingClaim, GetPairingResult, ConsumePairingResult).
--   Transcript  transcriptindex/. Scan: record.go; Codex and Claude: the extractors of extractor.go;
--               Lineage and Cursor: lineage.go, anchor.go and cursor.go; Index: Build and Refresh of
--               index.go, whose new spans are those of Refresh; Pages: LastN and PageBefore, with
--               the pages of servePaginatedMessages (go-bridge/pagination.go); Union:
--               spanByteUnion; Replay: the contents of a page.
--   Pagination  go-bridge/pagination.go. Trim: trimWireToBudget; Compact:
--               compactDuplicateMessageFields; Sessions: paginateSessionList and the list cursor;
--               Serve: servePaginatedMessages, once it has an index.
--   Limiter     relay-server/internal/relay/limiter.go: RateLimiter with its Allow, cleanup and
--               Stats.
--
-- State and time. A method runs under its component's mutex, or as one transaction of the store, so
-- it is one function from the state to the state and the results; a history is a list of calls, in
-- any order. An SQL statement is a function on the rows that its WHERE clause can select: those of
-- one route, or of one device. The time, random strings and the outcome of a file write are
-- arguments; hashes, base64 and JSON are parameters. Times are natural numbers, nanoseconds in
-- go-bridge and the limiter and seconds in the relay's store. The cursor of the mailbox is a uint64
-- and wraps around; a theorem that needs it not to wrap says so. A map is an association list with
-- one entry for each key; what a `range` collects is in the order of that list, and no theorem
-- depends on it. Loops are structural recursions on the list of frames, stamps, rows, lines or spans,
-- but for four that use fuel: the binary search (as much as there are spans), the two loops of
-- transcriptindex/index.go that move a bound until it rests (as much as the bound can still move),
-- and a client that asks for page after page (as many as there are items, and one more). The fuel is
-- enough by the theorems on them.
--
-- Not modelled: HTTP and WebSocket handling, the relay store's routes and credentials, errors of the
-- database and of reading files, cryptographic primitives, the store of pairing sessions and its
-- handlers, the relay hub and prekeys (go-bridge), the cache and the files of transcript indexes
-- (transcriptindex/store.go, persist.go), the drivers of the agents (agent/), configuration (config/)
-- and the macOS app (MacBridge/).
pub mod Base
pub mod Devices
pub mod Limiter
pub mod Mailbox
pub mod Pagination
pub mod Pairing
pub mod RelayClaims
pub mod RelayFrames
pub mod Transcript
