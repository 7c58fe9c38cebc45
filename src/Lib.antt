-- ===== src/Lib.antt =====
-- Verification of snmp-olt-zte, a service that reads ZTE OLTs over SNMP, serves their ONUs over HTTP
-- through a Redis cache, and notifies a webhook of ONUs that go down.
--
-- Parts, and the files that model them:
-- * config/oid_generator.go and config/config.go: the OIDs of a port are computed from slot and PON
--   (Config/Oid), OLT_BOARDS is parsed to a topology, and the map of all ports is built and checked
--   (Config/Topology). config/olts.go (Config/Olts) makes the list of OLTs from OLTS, and
--   config/users.go (Config/Users) the API keys; config/registry.go (Config/Fetch) fetches the OLTs.
-- * app/registry.go (Registry): the running stacks, one for each OLT. `reconcile` is Reconcile, `poll`
--   one tick of StartPoller. The stack of an entry is a number; `retired` holds those that were retired.
-- * app/routes.go, internal/middleware/auth.go and internal/middleware/validation.go (Access): the chain
--   that a request passes. `admit` is Authenticator, resolveOLT and ValidateBoardPonParams in order.
--   internal/middleware/client_ip.go (Access/Proxies) finds the client behind proxies.
-- * internal/handler/onu.go, internal/errors, internal/utils/error.go and pkg/pagination (Http): a
--   handler is a function to its response, and to the new store where it has one.
-- * internal/usecase/onu.go (Usecase): a use case is a function of the OLT's answers and of the store,
--   and returns its result with the new store. The detail of an ONU, which is not cached, is
--   Usecase/Detail; internal/usecase/uplink.go is Usecase/Uplink, internal/usecase/prewarm.go
--   Usecase/Prewarm, and internal/repository/redis.go Cache.
-- * internal/repository/snmp.go (Snmp): the pool of connections. The goroutines of its operations and
--   of Close move one at a time, in any order: `move` is one step of one of them.
-- * internal/trap (Trap): the event of a received trap (Listener, with Index), event types and severities
--   (Event), the handler (Handler), the queues of the batcher and their flush (Batcher), the power
--   monitor (Power), and the posts of a webhook (Webhook), whose settings app/webhook.go refreshes.
-- * internal/health/health.go (Health): the readiness checks with their cached results.
-- * internal/utils (Utils): the values of SNMP as text; internal/model (Model): the records.
--
-- Parts interact as in the code: the handlers call the use cases and turn their errors to responses, the
-- trap handler and the flush of the batcher read the ONU's detail through a fetcher and change the
-- queues, the power monitor scans the lists and adds its alerts to the same queues, the use cases find
-- the OIDs in the map of Config, a request reaches an entry of the registry by its id, and the registry
-- is fed with the OLTs that Config checked.
--
-- Conventions: a text is its list of bytes (Common/Strings). An int is ℤ of Common/Int, and sums and
-- products are reduced by `wrap64` where they can leave 64 bits. A Go map is a list of pairs, and its
-- order stands for the order that `range` happens to take (Common/Maps). A nil slice is `none`. An error
-- is a constructor for each place that makes one. Loops are structural recursion; the parsers and printers
-- of decimals count down on the number itself. Only the retries at startup have fuel, one for each second
-- of their window, since every retry sleeps a second at least. sort.Slice is an insertion sort.
--
-- Parameters: Redis and JSON (RedisClient, Json, with their documented laws), the OLT's answers
-- (SnmpRepository of Usecase/Device, OnuDetailFetcher, Fetch), floating-point numbers (Floats) and their
-- formatting, package time (Times), what errors.Is and errors.As find in an error (`typed`), the payload
-- formatter (WebhookClient), package netip (NetIp), the replies of HTTP, the probes of dependencies, the
-- clock, the duration that a float beyond 64 bits becomes, and whether an OLT can be connected.
-- Tests/Stores gives a Redis and a JSON for which the laws hold, and the other files of Tests apply the
-- theorems to concrete data.
--
-- Not modelled: gosnmp, the workers of the registry, webhook payloads, the
-- router and the middlewares that do not decide over a request, the reading of the environment, and
-- logging, metrics and tracing. Calls that the singleflight group joins are
-- single calls, and entries of Redis do not expire within an operation.
pub mod Common
pub mod Config
pub mod Model
pub mod Utils
pub mod Trap
pub mod Cache
pub mod Snmp
pub mod Usecase
pub mod Http
pub mod Health
pub mod Registry
pub mod Access
pub mod Tests
