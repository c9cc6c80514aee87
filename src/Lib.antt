-- ===== src/Lib.antt =====
-- The push server of the ARGO messaging service: a grpc service that keeps one worker for each active
-- subscription. A worker pulls messages from the messaging service over http, sends them to the
-- subscription's destination, acknowledges them, and waits as its retry policy says.
--
-- The parts, by the files of the repository:
--   push/worker.go: Push has the worker and its cycle, `push`; Push/Loop has `Start` as steps of the
--     loop's goroutine, of its timer, and of those who stop it or read its channel. Push/Stages has
--     the cycle in its three stages, and Grpc/Fleet the workers whose stages interleave. The worker is
--     a record that each method returns changed.
--   api/v1/grpc/server.go: Grpc has the service and its handlers; Grpc/Load has `loadSubscriptions`;
--     Grpc/System has the running service, as steps of the handlers, of the workers' loops, of the
--     loading and of `handleDeactivateChannel`. Since Go's map holds pointers to workers, the map is from names to
--     the numbers of loops, and the started loops are a field beside it. Grpc/Overlap has handlers that
--     run at once: the test of `ActivateSubscription`, of `deactivateSubscription` or of
--     `SubscriptionStatus`, and the write or read that follows it, are two steps there. Grpc/Server has `NewGRPCServer`. Grpc/Registry is a specification: the
--     registry of active subscriptions that the service is for its clients.
--   api/v1/grpc/interceptors.go: Grpc/Interceptors, with the chain that `NewGRPCServer` builds.
--   api/v1/grpc/proto/ams.pb.go: Proto, the requests that the service reads.
--   retrypolicies/*.go: RetryPolicies, with Timer for the timer of Go's library.
--   consumers/*.go: Consumers, the interface as a record over the state that consuming changes, and
--     the http consumer that fills it.
--   senders/*.go: Senders, likewise, with the http and the mattermost sender.
--   pkg/ams/v1/*.go: Ams, the client of the messaging service, with its data in Ams/Types.
--   config/config.go: Config.
--   main.go: Startup, with the operating system as the record Host.
--   The doubles of the tests: Config/Mock (config/mock.go), Consumers/Mock (consumers/mock.go),
--     Senders/Mock and Senders/Mock/Destinations (senders/mock.go), Push/Mock (push/mock.go), where the
--     mock consumer and sender fill the interfaces, and Ams/Mock (pkg/ams/v1/mock.go), the network of
--     the tests, from which Grpc/Load/MockLoad loads subscriptions.
-- Base has the shared helpers: tests, Go's results and panics, maps, lists, and 64-bit arithmetic.
-- Examples has test data and, in its children, applications of the theorems to it.
--
-- What the program takes from Go's library and from the network is one parameter, the record of
-- Environment: the building of urls and requests, json, base64, and the answer to a request after the
-- requests that were sent before. Every request that goes out is added to a history, which the
-- theorems speak about.
--
-- Bounds and fuel: durations are 64-bit patterns with Go's wrap-around written out (Base/Int64). The
-- search for the user of the push worker, an unbounded loop of the code, takes fuel: one unit for each
-- attempt, so one more than the failed attempts is enough. Every other loop of the code is structural
-- recursion, but for the loop of a worker, which is a step relation.
--
-- Not modelled: logging, the printing of the configuration among it; the generated marshalling and
-- client of ams.pb.go, which is protobuf's; the set up of the http client; and what main defers. In
-- Grpc/System each handler is one step, so handlers do not overlap there. They do in Grpc/Overlap,
-- where any goroutine may be the reader of the deactivation channel, and nothing writes the status. In
-- both a push cycle is one step; Grpc/Fleet has its stages, and leaves out the handlers. Torn accesses
-- to the map, which Go leaves undefined, are not covered.
pub mod Base
pub mod Proto
pub mod Timer
pub mod RetryPolicies
pub mod Environment
pub mod Ams
pub mod Senders
pub mod Consumers
pub mod Push
pub mod Config
pub mod Grpc
pub mod Startup
pub mod Examples
