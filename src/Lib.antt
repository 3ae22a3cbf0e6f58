-- ===== src/Lib.antt =====
-- llm-broker is a relay between clients and LLM providers. It shares a set of provider accounts among
-- its users. The relay (internal/relay) asks the pool (internal/pool) for an account, sends the
-- request upstream, tells the pool how that went, and asks again if another account may serve it. The
-- pool keeps its state in a store (internal/store), asks a provider's driver (internal/driver) what
-- an account can take, and publishes events (internal/events). The server (internal/server) lets a
-- request pass by its token (internal/auth), and also speaks the chat interface of OpenAI: it turns
-- such a request into one of a provider, relays it, and translates the answer or its stream back.
--
-- The pool groups accounts in quota buckets. A cooldown belongs to a bucket, so accounts of one
-- upstream quota rest together. An account may live in an egress cell, the proxy that it goes
-- through, and a cell may serve one request surface only. A request is routed to the bucket with the
-- lowest load, and within it to the account that was used least recently. A lease holds a place on
-- its route until it is finished. A request with an affinity key goes to the account that its key is
-- bound to. The first request of a key claims the key, and others of the key wait for that claim to be
-- released.
--
-- Files and the code that they model:
--   Prelude.antt       lists, maps as association lists in iteration order, texts, numbers
--   Domain.antt        internal/domain: account.go (Domain/Accounts), egress_cell.go (Domain/Cells),
--                      quota_bucket.go (Domain/Buckets), session_binding.go and other rows
--                      (Domain/Bindings), surface.go (Domain/Surfaces)
--   Driver.antt        internal/driver/types.go and the SchedulerDriver of driver.go
--   Events.antt        internal/events/bus.go: Event; its Bus in Events/Bus
--   Store.antt         internal/store/mock_store.go: tables, writes, session bindings; in
--                      Store/Expiring the stainless bindings, OAuth sessions and refresh locks, and in
--                      Store/Users the users, with internal/domain/user.go
--   Store/Ttl          internal/store/mem.go: TTLMap
--   Pool.antt          internal/pool/pool.go: Pool, reloadStateLocked; bucket keys and bucket reads
--                      of pool_buckets.go
--   Pool/Buckets       pool_buckets.go and applyBucketCooldown of pool_accounts.go
--   Pool/Cells         pool_cells.go
--   Pool/Routes        the route counters of pool_schedule.go
--   Pool/Availability  structurallyAvailableLocked, allowedOnSurfaceLocked and the guards of
--                      acquireLocked in pool_schedule.go
--   Pool/Choice        its candidates, leastInflightCandidateLocked, leastRecentlyUsed,
--                      leaseAccountLocked
--   Pool/Acquire       acquireLocked: acquire_bound is its part for a bound account, acquire_any the
--                      rest
--   Pool/Lease         releaseAffinityClaimLocked, Accept, Finish and Abort
--   Pool/Route         AcquireRoute and PickForSurface
--   Pool/Observe       Observe of pool_observe.go, with its texts in Pool/Messages
--   Pool/Cleanup       cleanup and SetDrivers of pool_observe.go
--   Pool/Accounts      pool_accounts.go
--   Pool/Sessions      pool_runtime.go and the reads of pool.go
--   Pool/Protocol      requests that acquire, accept and finish routes in any order
--   Relay/Answers      internal/relay/relay_attempt.go: relayAttemptState, exclude; the answers and calls
--   Relay/Attempt      executeRelayAttempt and finishRelaySuccess
--   Relay/Loop         the loop of handleWithDriver of internal/relay/relay_flow.go, and
--                      finishRelayFailure
--   Relay/Request      routeAffinityKey of internal/relay/relay_request.go
--   Relay/Handle       the whole of handleWithDriver, with prepareRelayRequest of relay_request.go and
--                      handleCountTokens of relay_count_tokens.go
--   Relay/Pooled       the loop with the accounts of a pool
--   Auth.antt          internal/auth/auth.go: Authenticate, and the gates requireSurface and
--                      requireAdmin of internal/server/surface_auth.go and admin_auth.go
--   Server/RateLimit   internal/server/compat_rate_limit.go
--   Server/Stream      compatOpenAIStreamWriter of internal/server/compat_openai_stream.go; its two
--                      line handlers in Server/Stream/Claude and Server/Stream/Gemini, its buffers
--                      with Write, WriteHeader and finalize in Server/Stream/Writes
--   Server/Chat        handleCompatOpenAIChatCompletions and buildCompatTarget of
--                      internal/server/compat_openai_chat.go; resolveCompatModel in Server/Chat/Models
--   Server/Users       the handlers of internal/server/admin_users.go that change users
--   Tokens.antt        internal/tokens/manager.go
--   Watchdog.antt      internal/localcellwatchdog/watchdog.go
--   Providers/Interpret
--                      Interpret, ShouldRetry and RetrySameAccount of internal/driver/codex.go,
--                      gemini.go and claude.go
--   Providers/Codex    internal/driver/codex_support.go, codex_admin.go and codex_models.go: the state
--                      of an account's limits, what updates it and what is read of it; the
--                      catalogue of models in Providers/Codex/Models
--   Providers/Claude   internal/driver/claude_support.go and claude_admin.go likewise, and in
--                      Providers/Claude/Models claude_models.go
--   Tests.antt         a small pool and other inputs, and runs on them
--
-- Conventions. An operation runs under the pool's mutex, so it is a function of the pool before it.
-- It takes an Env: the reading of the clock, which is read once in an operation; which reads and
-- which writes of the store succeed; and, as functions, what the standard library computes:
-- encoding/json, float64 with its square root, and the printing of numbers and times. A driver is a
-- record of functions. A time is a number of nanoseconds with 0 for the zero time, and a pointer to a
-- time an Option. A pointer into a map of the pool is the key of its entry. A map lists its entries
-- in the order in which a loop meets them, and the theorems hold for every order. An affinity claim is
-- a number, and closed_claims has the claims whose channel is closed. The route sequence wraps at
-- 2 ^ 64; other counters do not wrap. Calls with a nil account are left out.
--
-- AcquireRoute loops while another request holds the claim on its key. The model has one round of the
-- loop, whose outcome is a lease, an error, or the claim to wait for; the caller goes round again when
-- that claim's channel is closed. So no function of the pool needs fuel: its loops run over lists.
-- Pool.Protocol lets any rounds follow each other, and other operations between them which leave the
-- routes and the claims alone.
--
-- What a driver's helpers read of an answer's headers and body, and the state that it writes back, is
-- given as a Reading.
--
-- The relay, the token manager and the watchdog call other parts and the network. A record holds
-- what these answer to one attempt, one call or one run, and the code becomes a function of the
-- answers, whose value has the calls that were made, in their order. The answers are arbitrary, so
-- the theorems hold whatever the other parts do, unless a hypothesis says what is relied on. A log
-- entry of the relay has the fields that the attempt decides. The loop of handleWithDriver runs
-- over the number of its rounds, max_retry_accounts and one more, or none for a negative number.
-- The digits of a number are written with one more unit of fuel than the number, and each round
-- divides it by ten. The hash of a name (uuid.NewSHA1) is a function. A release function of the
-- rate limiter is called once.
--
-- A stream writer's wire is a list of what it sent: headers, bytes, an error response. Bytes and the
-- code points of a text are numbers. What encoding/json reads and writes, the responses of the client's
-- connection and the translations of bodies are given as records of functions; the one law that is
-- relied on is that a chunk is printed as an object, and so is not the end mark. A provider's stream is
-- a LineHandler: how it takes a line, with the law that it sends only whole chunks and comments. The
-- loop of Write runs on fuel, one more than the bytes of its buffer, of which each round takes one at
-- least. What other requests do to the rate limiter while a compat request is served is a function of
-- the limiter. The hash of a token is a function, and the random bytes of a new one are given. The
-- times of Codex and Claude are Unix seconds, those before 1970 are left out, and floating point numbers
-- are a parameter.
--
-- Not modelled: logging; the goroutine of the auth hook, of which only the start is recorded, and
-- that of the time of a user's last activity; an empty cell status that cellAvailableLocked writes back
-- as active, which the model only reads as active; a truncation within a character of several bytes;
-- the contents of logs and traces and the copying of streams in the relay, and how it decodes a
-- request's body. Of the server: the headers of a relayed compat request and the translation of its
-- body, the handlers of accounts, cells and OAuth, and JSON views. Of the drivers: the state of Gemini,
-- GetUtilization, prices of models, the building of requests and OAuth calls. Of the other
-- packages: the statements of the SQL store, the rows of request logs, transport, cryptography,
-- configuration, and the web client.
pub mod Prelude
pub mod Domain
pub mod Driver
pub mod Events
pub mod Store
pub mod Pool
pub mod Relay
pub mod Auth
pub mod Server
pub mod Tokens
pub mod Watchdog
pub mod Providers
mod Tests
