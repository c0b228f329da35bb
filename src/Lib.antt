-- ===== src/Lib.antt =====
-- A verification library for storetheindex, the indexer of content that storage providers advertise.
--
-- The program keeps a registry of providers (internal/registry), whose registration a policy allows
-- (internal/registry/policy over peerutil); an ingester (internal/ingest) that fetches chains of
-- advertisements and stores their multihashes; servers that answer queries (server/finder), take signed
-- requests and announcements (server/ingest) and are administered (server/admin); and a daemon
-- (command/daemon.go) that starts all of it from a configuration (config) and reloads that. The files
-- model them part by part:
--
-- PeerPolicy: peerutil/policy.go. `Policy` is the struct; `new_policy`, `new_policy_strings`, `eval`,
-- `any`, `set_peer` and `except_strings` are its functions.
-- Registry/Policy: internal/registry/policy/policy.go, every method.
-- Registry/Sequences: internal/registry/sequences.go, `check` and `retire` over a clock.
-- Registry/State: the data of internal/registry/registry.go, and `Env`, the interface of what that file
-- calls and this repository does not hold: the datastore, JSON, go-libp2p and go-multiaddr.
-- Registry/Register: Register, syncRegister, syncPersistProvider, RemoveProvider, ProviderInfo.
-- Registry/Update: RegisterOrUpdate, which reads in one action and writes in another.
-- Registry/Discovery: Discover, syncStartDiscover, its completion, syncNeedDiscover and cleanup.
-- Registry/Poll: pollProviders, with the iteration order of Go's map as the order of a list.
-- Registry/Load: loadPersistedProviders. Registry/Import: ImportProviders.
-- Registry/Start: NewRegistry and its polling. Registry/Lifecycle: run, runPollCheck and Close, as moves
-- that may come in any order. Registry/Json: MarshalJSON and UnmarshalJSON of ProviderInfo.
-- Registry/Lotus: internal/lotus/discovery.go.
--
-- Schema: the signature of an advertisement, api/v0/ingest/schema/envelope.go, and Validate in types.go.
-- Ingest/State: the data of internal/ingest. Ingest/Worker: ingestWorkerLogic in ingest.go.
-- Ingest/Staging: runIngestStep, ingestWorker, Announce and handlePendingAnnounce in ingest.go, as steps
-- that may come in any order.
-- Ingest/Store: the marks of processed advertisements in the datastore, in ingest.go.
-- Ingest/Batches, Ingest/Entries, Ingest/Hamt, Ingest/Ad: indexAdMultihashes and storeBatch, entry
-- chunks, HAMTs, and ingestAd, in linksystem.go, over the registry's model.
-- Ingest/Link: mkLinkSystem's writer and verifyAdvertisement in linksystem.go.
-- Ingest/System: the worker over the operations of Ingest/Store and Ingest/Ad, in place of `Calls`.
-- Ingest/Events: onAdProcessed and its cancel function; Ingest/Events/Delivery: distributeEvents and its
-- readers, as moves in any order; Ingest/Sync: Sync, the rate limits and RunWorkers; Ingest/AutoSync:
-- autoSync and metricsUpdater; all in ingest.go.
-- Finder: Find, GetProvider and ListProviders in server/finder/handler/finder_handler.go, with what
-- api/v0/finder/model makes of a provider and its time.
-- Finder/Servers: GetStats there, and the handlers of server/finder/http and server/finder/libp2p with
-- their routes. Finder/Clients: api/v0/finder/client/http and api/v0/finder/client/libp2p.
--
-- Server/Requests: the signed requests of api/v0/ingest/model, made and read.
-- Server/Handler: server/ingest/handler/ingest_handler.go, over the models of the registry, the
-- sequence numbers and the ingester. Server/Handler/Replay is about requests that are sent again,
-- Server/Handler/Announce about announcements.
-- Server/Errors: api/v0/error.go and common.go, and HandleError of both kinds of servers.
-- Server/Transport: the handlers of server/ingest/http and server/ingest/libp2p, and the loop over a
-- stream's messages in internal/libp2pserver/server.go.
-- Server/Client: requests over the stream of api/v0/libp2pclient/client.go.
-- Server/Clients: the clients api/v0/ingest/client/http and api/v0/ingest/client/libp2p, and the routes of
-- server/ingest/http/server.go.
-- Web: HTTP requests and responses, ReadError of api/v0/httpclient and internal/httpserver/util.go.
-- Admin/Importer: internal/importer, and the handlers importManifest and importCidList in
-- server/admin/http/handler.go. Admin/Handler: the other handlers there, and the routes of server.go.
-- Admin/Handler/Client: api/v0/admin/client/http/client.go.
-- Daemon/Config: the defaults and populateUnset of config. Daemon/Reload: reloadConfig and the loop of the
-- daemon in command/daemon.go, over the models of Ingest/Sync and Registry/Policy. Daemon/Peering:
-- reloadPeering there, with config/peering.go.
--
-- What is called and not part of the repository is a record of operations, an argument: `Env`, `Crypto`,
-- `Outside`, `Core`, `Network`, `Blocks`, `Envelopes`, `Services`, `Formats`, `Codec`, `Cbor`, `Values`,
-- `Gateway`, `Peerings`, `Clock`; `Calls` has what the worker calls in its own package.
--
-- Each action on the registry's goroutine, and each method under a mutex, is one step from a state to
-- a state with its result. Peer IDs, addresses, CIDs and texts are opaque names that the code compares,
-- and stand as numbers; 0 is the empty peer ID, cid.Undef, the zero time and the empty text of a
-- configuration. A Go map is a list of entries. A panic is an error value `panics`. Sequence times wrap
-- at 2 ^ 64 and batch sizes at 2 ^ 32 as in the source; other times and durations are unbounded. Numbers
-- that a configuration may have negative are integers. Loops are over lists, or over what a sync
-- delivers, a tree of finite depth, so that no fuel is needed; only the two loops of RunWorkers are on
-- fuel, for which the difference between the wanted and the present number of workers is enough; a send
-- to workers that are all stuck is a wait without an end, and no matter of the fuel.
--
-- Not modelled: goroutines and channels as such, where no file above is about them, cancellation of
-- calls, logging and metrics; NewIngester and Close of the ingester; of the servers, /reframe, the web
-- pages, /health, the metrics and the log levels, with what the admin client asks about these, listening
-- and timeouts; the start of the daemon and the other commands; files, flags, environment and
-- identities of the configuration; generated code.
mod Prelude
pub mod PeerPolicy
pub mod Registry
pub mod Schema
pub mod Ingest
pub mod Finder
pub mod Server
pub mod Web
pub mod Admin
pub mod Daemon
