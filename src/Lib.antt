-- ===== src/Lib.antt =====
-- Verification of the Go SDK of NeKiro: the application's Gateway client (client/), the SDK of nested
-- invocations (agent/), the check of Router credentials that a managed Agent runs
-- (agent/routerauth/), the host that runs an Agent (agent/host/), and the registration of its instance
-- (agent/registration/nacos/).
--
-- How the parts interact. An application calls `Invoke` or `InvokeStream` of client/; both send one
-- request through `do`, check the response's status and headers, and read its body: as one bounded
-- JSON text, or event by event through a `Stream`. A failed response becomes a `PlatformError`. On
-- the Agent's side the middleware of agent/routerauth lets a request through to the Agent's handler
-- only if `Verify` accepts its credential, and the replay guard lets each credential pass once. An
-- Agent that calls another one goes through `Invoke` or `InvokeStream` of agent/client.go, on behalf
-- of the Invocation that it serves. The host starts the Agent's server, keeps its registration while it
-- runs, and takes both down; a Nacos registration answers the host's calls.
--
-- Which file models which part:
--   Client/Sse         `readSSELine` and `readSSEFrame` of client/stream.go over a `bufio.Reader`.
--   Client/Stream      `Stream` of client/stream.go: its fields as a record, `Recv`, `Close`,
--                      `recordFailure` and `closeBody` as functions from state to state; Stream/Runs
--                      has whole sequences of calls.
--   Client/Members     `rejectDuplicateJSONMembers` and `requireEOF` of client/json.go.
--   Client/Body        the bounded reading and closing of a body, and the header checks, of
--                      client/json.go.
--   Client/Identifier  `safeIdentifier` of client/json.go, `validApplicationCredential` of
--                      client/config.go.
--   Client/Origin      `validateGatewayOrigin` of client/config.go.
--   Client/Construct   `Config` and `NewClient` of client/config.go.
--   Client/Codes       `validPlatformErrorStatus` of client/errors.go.
--   Client/Failure     `PlatformError` and `decodePlatformError` of client/errors.go.
--   Client/Request     `validateJSONObject`, `encodeInvocationRequest` (client/json.go) and `do`
--                      (client/client.go), with the requests that went out.
--   Client/Invoke      `Invoke` (client/client.go) and `InvokeStream` (client/stream.go), with the body
--                      that is left behind.
--   Agent/Context      `PlatformContext` and `NestedRequest` of agent/client.go, with `Validate`.
--   Agent/Construct    `NewClient` of agent/client.go.
--   Agent/Call         `Invoke`, `InvokeStream` and `do` of agent/client.go, with the requests that went
--                      out and the body that is left behind.
--   Agent/Failure      `RouterError`, `routerError` and `readBounded` of agent/client.go.
--   Agent/Stream       `NestedResultStream` of agent/client.go; Stream/Runs has sequences of calls.
--   Agent/Sse, Agent/Identifier, Agent/Status
--                      `readSSEFrame`, `safeIdentifier`, `validRouterErrorStatus` of agent/client.go.
--   Host/Staged        agent/host/error.go.
--   Host/Policy        `New` and `isNil` of agent/host/host.go.
--   Host/State, Host/Lifecycle
--                      `Run` of agent/host/host.go as a step function: a choice says who moves (the main
--                      routine, one of the two goroutines, the caller or the clock), and a schedule is
--                      a list of choices; theorems are about every schedule. A goroutine makes
--                      its call at any time after its `go` statement.
--   Nacos/Registration `Register`, `Run`, `Deregister` and `Ready` of
--                      agent/registration/nacos/registration.go, with the calls that reach the
--                      registrar; Nacos/Hosted plays them together with the host's steps.
--   Nacos/Values, Nacos/Ranges, Nacos/Config
--                      agent/registration/nacos/config.go; the order in which `LoadConfig` runs over its
--                      two maps is an argument.
--   RouterAuth/Replay       agent/routerauth/replay.go; the map of expiries is the function of its
--                           lookups, and one call under the mutex is one step.
--   RouterAuth/Headers      agent/routerauth/headers.go, the header map as a list of entries in the
--                           order of one iteration.
--   RouterAuth/Object, RouterAuth/Credential, RouterAuth/Verify
--                           agent/routerauth/verifier.go: the strict objects, the claims, `Verify`.
--   RouterAuth/Config       agent/routerauth/config.go and `NewVerifier`.
--   RouterAuth/Middleware   agent/routerauth/middleware.go and errors.go.
--   Json, Base64, Http, Strconv, Errors
--                           what the code uses of Go's encoding/json (scanner, token interface,
--                           `Valid`, `Compact`), encoding/base64, net/http headers, strconv and
--                           errors.
--   Url                what the code uses of Go's net/url: `Parse`, `Hostname`, `Port` and `String`, the
--                      last one for a URL that has no more than its scheme and host; a host in brackets
--                      and the lower case of text outside ASCII are parameters (`UrlLibrary`).
--   Contracts          the parameters that stand for the contracts module in a result stream. The
--                      other parameters stand in the component that uses them: `FailureContract`,
--                      `ResultContract`, `Http`, `CallContract`, `Doer`, `CredentialContract`, `ConfigContract`,
--                      `ErrorContract`, `SystemLibrary`.
--   Prelude            shared notation, bytes, lists over the native numbers, signed integers.
--
-- Conventions. A Go string or byte slice is a list of bytes; `nil` errors are `none`; a returned error
-- is the `err` of a result; a credential refused with a status, and a run-time panic, are cases of
-- `Verified`: the index into an empty audience, and `ed25519.Verify` on a key that has not 32 bytes, are
-- such panics. An `int64` that is read from outside is a ℤ within its range, a limit or a status is
-- a ℕ: limits lie between 1 and 2147483647, so no sum in the code overflows. Two calls of a
-- context's `Err`, and two readings of the clock, may differ and are two arguments.
--
-- Fuel. The duplicate check gets two rounds for each item of its input, and one more; the loop over a
-- credential object's members a round for each item and one more; the loop of `readSSELine` a round
-- for each byte and one more; the printing of a port twenty rounds, one for each digit of a 64-bit
-- number. These are enough because every round but the last consumes an item of the input, fills the
-- buffer with bytes of it, or prints a digit.
--
-- Not modelled: the HTTP transport of agent/registration/nacos, and the building of its registrar from
-- the registry module; the first test of `Host.Run`, that neither the host nor the context is nil, and
-- its signal handling, which is one way in which the run context ends; the lookup of the claims in a
-- request's context; and the formatting of errors, but for the text of a staged error.
pub mod Prelude
pub mod Errors
pub mod Json
pub mod Contracts
pub mod Host
pub mod Nacos
pub mod Http
pub mod Url
pub mod Strconv
pub mod Base64
pub mod Client
pub mod Agent
pub mod RouterAuth
