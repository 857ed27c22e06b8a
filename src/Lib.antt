-- ===== src/Lib.antt =====
-- The core of the Shiden Guardian, which watches and repairs a collator node of the Shiden network.
--
-- The program's parts. The agent (cmd/agent/main.go) runs on the node's host. It reads the node's
-- state and, through the monitor of internal/reward/reward.go, the rewards that the chain has paid;
-- and it restarts the node on request, within the limits of a guard. The controller
-- (cmd/controller/main.go) polls the agent and the public nodes. It hands each sample to the rules
-- of internal/rules/rules.go, which raise signals, scans the history of the rewards in chunks, and
-- writes what it finds through internal/store/store.go, whose transactions move a durable cursor.
-- Where the node has lost the state of old blocks, an operator may let the cursor skip them. The
-- auth broker (cmd/authbroker/main.go) enrols and signs in the administrators with password and
-- one-time code (internal/auth/auth.go), limits their attempts (internal/authlimit/limiter.go), and
-- passes their orders on to the controller, signed (internal/actionbroker/actionbroker.go), each
-- accepted once.
--
-- The files.
-- - Prelude and its children: names of the libraries, tests on numbers, lists, signed 64-bit
--   integers (each sum and difference wraps), points in time, texts.
-- - Model: the records of internal/model/model.go (Records), Go's error values (Errors). A chain of
--   `if err != nil` is a chain of binds of Result. Samples holds data for the tests.
-- - Rules: Evaluator.Evaluate, one `..._check` for each block of it. Signals, Timers, Stall and
--   Kinds hold proofs.
-- - Reward/Codec: the SCALE decoders, littleInt and ExpectedReward. Reward/Hash: xxhash64, twox128
--   and twox64Concat. Reward/Address: decodeBase58, DecodeSS58, StorageKeys. Reward/Monitor:
--   Snapshot, Scan and observeReward, over the calls of Reward/Monitor/Calls.
-- - Store: upsertRewardObservation, validateRewardCursorTransition and ApplyRewardScan.
--   Store/Rebase: AcknowledgePrunedRewardGap.
-- - Controller/Backoff, Validate, Externals, History, Gap, Status, Quorum and Recovery:
--   rewardRetryBackoff and rewardScanRetryBackoff; validateLocalRewardScan; rewardExternalReady,
--   the records of success and failure, confirmRewardAnomaly; scanLocalRewardHistory,
--   rewardScanEnd, failRewardScan; acknowledgePrunedRewardGap, rewardRecoveryForScanError;
--   rewardStatus, rewardSignals, rewardChainProgressing; the count of the agreeing nodes in
--   collectRewards; verifyRecovery.
-- - Agent/Guard: restart, loadGuard and saveGuard.
-- - ActionBroker: the verifier's remember. ActionBroker/Verify: Verify, Sign and message. Once,
--   Replay and Memory hold proofs.
-- - AuthLimit: the limiter of logins, internal/authlimit/limiter.go: Allow, Fail, Success and
--   cleanup. AuthLimit/Lru: its two maps, each with the list of its keys, and their eviction.
-- - Auth: RandomToken, HashToken, EncryptSecret and DecryptSecret. Auth/Password: HashPassword and
--   VerifyPassword. Auth/Policy: ValidUsername, ValidPassword. Auth/Totp: totp, ValidateTOTP,
--   RecoveryCodes. Roundtrip and Window hold proofs.
-- - AuthBroker/State and Flow: the tables, the server, a request and its answer; a handler as a
--   chain of steps. Access: caddyOnly, clientIP, tooMany, rateLimit, the hash gate, health. Login:
--   loadUser and login. Bootstrap: the three handlers of the first administrator. Sessions:
--   requireAuth, logout, maintenance. Actions: stepUp, restart, acknowledgeRewardGap,
--   updateSettings. Routes: the mux of main. Careful and Untouched, Authority, Changes, SingleUse
--   and Granted hold proofs.
-- - Examples, below each part: tests on concrete data.
--
-- State and effects. A component's state is a record that its operations take and return. A
-- database is its tables; every statement may fail, by a function from the statement to its result,
-- and a transaction keeps the old tables on an error. The node's RPC is a record of functions on a
-- world, so that answers may change from call to call. The public nodes, the clock, the writes of
-- files and the commands are arguments. The BLAKE2b digests of golang.org/x/crypto are arguments
-- too, and so are the hashes, ciphers and encodings that internal/auth/auth.go and
-- internal/actionbroker/actionbroker.go call. What a request of the auth broker meets, the clock,
-- the random bytes and the database's answers, is part of the request. Two requests do not run at
-- once, but the two halves of a login may stand apart in a run (AuthBroker/Changes/Events).
--
-- Numbers. Heights are signed and wrap to 64 bits; amounts in Planck are natural numbers;
-- percentages are thousandths; counts of failures do not overflow. A time is the number of
-- nanoseconds since Go's zero time, and a difference of two is cut off at the ends of an int64, as
-- Go's is.
--
-- Bounds and fuel. The loop of Scan takes a fuel of 129 rounds, for the at most 128 blocks of an
-- accepted range and the last test, and big_bytes a fuel of the number of digits, which is at least
-- the number of bytes. xxhash64 takes the length of its input as fuel, and the loop that makes room
-- in a map of the limiter one round more than the map has entries. A token of the limiter is its
-- refill time in nanoseconds, so that fractions are exact, where the source has floating point. The
-- loop of verifyRecovery takes 41 rounds, one more than the pauses of fifteen seconds in ten
-- minutes. All other loops go down a list.
--
-- Not modelled. Titles of signals and the texts of mails; numbers inside error texts; letters
-- outside ASCII in ToLower and TrimSpace; the partial result of a call that fails, which no caller
-- reads; JSON, HTTP headers and logs; SMTP, the journal, SQL that only reads for the user
-- interface; the controller's incidents, its queue of actions and its automatic restarts; the
-- public API, migration and configuration. The user interface and the deployment files are not Go.
pub mod Prelude
pub mod Model
pub mod Rules
pub mod Reward
pub mod Store
pub mod Controller
pub mod Agent
pub mod ActionBroker
pub mod Auth
pub mod AuthBroker
pub mod AuthLimit
