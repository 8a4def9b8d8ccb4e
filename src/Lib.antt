-- ===== src/Lib.antt =====
-- Notify-Chain, a listener that follows contracts on the Stellar network and delivers
-- notifications about their events. The listener (listener/src) polls an RPC node for events,
-- puts them in a processing queue, and sends a notification for each through a webhook or another
-- channel; around the queue stand the parts that make delivery robust. Modelled are these:
--
--   * RetryPolicy (listener/src/services/retry-policy.ts): which failures are retried, how often
--     and after which delay. FailureType has the classification of failures (classifyError,
--     classifyHttpStatus), RetryPolicy.antt the policy itself (evaluate, resolveMaxAttempts,
--     computeBackoffDelay).
--   * CircuitBreaker (listener/src/services/circuit-breaker.ts): execute is the pair of admit,
--     which decides if the call is made, and settle, which records its outcome; between the two
--     other calls run.
--   * ProcessingQueue (listener/src/services/event-processing-queue.ts): State and Events have
--     the data, ProcessingQueue.antt enqueue, processNext (poll) and handleFailure, System the
--     queue with the processors in flight as a step relation, so that every interleaving of the
--     awaited processors is a sequence of steps. It asks RetryPolicy what to do with a failure.
--   * ReplayCache (listener/src/services/webhook-replay-cache.ts): claim, sweep, eviction.
--   * RateLimiter (listener/src/api/rate-limiter.ts): handle with its guard, and cleanupCache;
--     Client has identifyClient.
--   * Deduplicator (listener/src/services/notification-deduplicator.ts): isDuplicate, markSent,
--     pruneExpired.
--   * EventBatcher (listener/src/services/event-batcher.ts): add, flush, flushDue and stop; Calls
--     has the sequences of calls and timer steps. Whether the flush handler rejects a batch is a
--     parameter of flush and flushDue.
--   * EventRegistry (listener/src/store/event-registry.ts): addFromInput, pruneExpired and the
--     queries on the events that the listener shows.
--   * ClaimLease (listener/src/services/notification-claim-lease.ts): the renewal interval, and
--     the heartbeat as a state machine in which the calls of renew may overlap.
--   * LedgerRange (listener/src/utils/ledger-range-validator.ts): validateLedgerRange and
--     parseLedgerRangeParams, with the InputValidator of listener/src/utils/validation.ts.
--   * Backpressure (listener/src/services/backpressure-controller.ts): the two thresholds between
--     which the controller keeps its state.
--   * GapDetector (listener/src/services/indexing-gap-detector.ts): detectIndexingGaps.
--   * WebhookVerifier (listener/src/services/webhook-verifier.ts): verifyWebhookRequest, from the
--     headers of a request to the claim of its signature in the cache of ReplayCache. The HMAC and
--     the JavaScript operations on texts are the record CryptoOps, a parameter.
--   * RpcFailure and RpcManager (listener/src/services/stellar-rpc-manager.ts):
--     isRpcFailureCondition, the pool of RPC endpoints with their health and cooldowns, the choice
--     of the next endpoint, and executeWithFallback over an operation that is a parameter, as is
--     what other calls do to the manager while an attempt is awaited. The loop is recursion on the
--     number of attempts that are left, which the source bounds itself.
--   * RpcRateLimiter (listener/src/services/rpc-rate-limiter.ts): acquire and acquireInternal on a
--     bucket that counts thousandths of tokens exactly; the ends of the delays are steps.
--   * Recurrence (listener/src/services/recurrence.ts): calculateNextRun. The loops over months run
--     on fuel, one more than the time that they count up to, since each round moves the date on.
--   * PayloadCompression (listener/src/utils/payload-compression.ts): compressPayload and
--     decompressPayload over gzip as a parameter.
--   * WorkerManager (listener/src/services/worker-manager.ts): the active jobs and the graceful
--     shutdown, whose timers and intervals are steps.
--   * RetryBackoff (listener/src/utils/retry-backoff-config.ts): the validation of a backoff
--     configuration, its defaults, and calculateBackoffDelay.
--
-- Prelude has what they share: the ECMAScript Map as an association list in insertion order
-- (JsMap), the Set (JsSet), counting, and tests on numbers.
--
-- State is a record that each operation takes and returns. A time is a natural number of
-- milliseconds, passed in as the reading of the clock, and one operation reads it once. Code
-- between two awaits runs to its end, so it is one function; where a theorem speaks of runs,
-- these are lists of calls, each with its time, or derivations of a step relation. Numbers are
-- natural numbers; subtraction is written so that it agrees with the source where that would be
-- negative. A delay with jitter is computed exactly in units of 2^-54 ms, and Math.random is any
-- draw below 2^53; the tokens of RpcRateLimiter and the powers of RetryBackoff are exact numbers
-- too, where the source rounds. Every loop is structural recursion; only those of Recurrence take
-- fuel. Operations on texts of the JavaScript engine (toLowerCase, trim) are parameters.
--
-- Not modelled: logging and metrics that are only reported; the database, HTTP and RPC calls,
-- which are third-party code; the dashboard (dashboard/), the static front end, and the Soroban
-- contracts (contract/, Documents/), which are programs of their own; the scheduler and its
-- repositories, which stand on SQL.
pub mod Prelude
pub mod RetryPolicy
pub mod CircuitBreaker
pub mod ProcessingQueue
pub mod ReplayCache
pub mod RateLimiter
pub mod Deduplicator
pub mod EventBatcher
pub mod LedgerRange
pub mod ClaimLease
pub mod EventRegistry
pub mod Backpressure
pub mod GapDetector
pub mod WebhookVerifier
pub mod RpcFailure
pub mod RpcManager
pub mod RpcRateLimiter
pub mod Recurrence
pub mod PayloadCompression
pub mod WorkerManager
pub mod RetryBackoff
