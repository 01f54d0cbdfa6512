-- ===== src/Lib.antt =====
-- A model of chain-api, a gateway in front of blockchain nodes, with the theorems that make its parts
-- correct.
--
-- The program takes JSON-RPC requests for thirteen chains. A handler (JsonRpcHandler,
-- pkg/handler/jsonRpcHandler.go) decodes a request (JsonRpc, pkg/jsonrpc), refuses methods, asks the
-- rate limiter (RateLimit, ratelimit/v1, with the script ratelimit/v1/lua/ratelimit.lua) and hands the
-- request to a proxy (Proxy, pkg/proxy), which answers from a cache or from an upstream node. The
-- handlers are set up by pkg/initapp (InitApp), whose NewApp puts the program together. Over WebSocket
-- the handler sends a client's requests on through a connection of its own (Proxy/WebSocket,
-- pkg/proxy/websocket.go). The handlers' addresses are registered by the router (Router,
-- router/router.go). Beside them, RpcHandler (pkg/handler/rpcHandler.go) watches the nodes of each
-- chain that LoadRPCConfig (Config, config/config.go) loads, chooses a healthy one, forwards requests
-- to it and reports the errors of the nodes (pkg/prometheus); and the IPFS gateway (Ipfs,
-- pkg/handler/ipfsHandler.go, pkg/handler/ipfs_proxy.go, service, ratelimit/v1/ratelimit_ipfs.go)
-- forwards requests to an IPFS node within a user's quota. Utils is pkg/utils; Redis states what the
-- code relies on in Redis, and Redis/Numbers how two databases differ; Common has what the modules
-- share: numbers, texts, and calls that return a value or an error and a state.
--
-- How the code is translated. A Go function that returns a value or an error and changes shared state
-- is an Exec: a function from the state before to a Result and the state after, so what was written
-- before an error stays written. A panic is an error of its own (Stop, or none in the rounds of
-- checks). A loop over a slice is a recursion on a list; the loop that reads WebSocket messages is one
-- over the messages that arrive, and the loop of handleWs has fuel for its rounds, one more than the
-- number of reads before one fails, which are enough since each round takes one read; what other
-- goroutines do between two messages is a parameter there, and so is whether the goroutine that writes
-- still takes what is put on the channel, which holds nothing: where it does not, the loop waits for
-- good. Where two goroutines call Client.Send, their accesses are steps of their own
-- (Proxy/WebSocket/Sends). int64 and uint64 keep their wrap-around (to_int64, wrap_int64), and
-- ToUint64 its bounds. A clock, Redis, HTTP, WebSocket, viper, gorm, md5, encoding/json, gojq and
-- floating-point numbers are not part of the repository: they are parameters, records of calls, with
-- laws from their documentation (IsRedis, IsCache); Redis.Concrete and Proxy.Concrete are instances.
-- Decimal numerals are printed with fuel, the number plus one, which is enough since each round
-- divides by ten.
--
-- Files. RateLimit: the script; RateLimit/Keys: its keys; RateLimit/Verdict and RateLimit/Script: one
-- run of it; RateLimit/Quota: sequences of runs; RateLimit/Limiter: RateLimiter of ratelimit.go,
-- RedisAllow of lua.go and IncreaseAndSetExpire of pkg/utils/cache.go, with Allow and Whitelist below.
-- RpcHandler: NewRpcHandler and the choice of a node; Probe: getBlockNumberFrom...; Check:
-- checkNodesHealthy, with Threshold, Health and Serving below. JsonRpc: requests and errors; Laws:
-- their cost. JsonRpcHandler: bind and rateLimit, with Bind and Bind/Erigon below; ClearInfo:
-- clearInfo, with Hidden below; Http: Http and TendermintHttp, with Http/Upstream below. Proxy:
-- HttpProxy and TendermintProxy; Cache: what is cached. InitApp: App, Ethereum, Solana, Tendermint are
-- the init functions, Startup their sequence; NewApp: NewApp of initApp.go, with Ends below. Utils:
-- Find, In, ToUint64 and JqQueryFirst; Membership: Find. RpcHandler/Forward: Http, ExtraWriteHttp and
-- forwardHttpRequest, with Headers below; RpcHandler/Forward/Socket: dialWs and Ws; RpcHandler/Report:
-- reportNodeErrors, pkg/prometheus/push.go and the loop of NewRpcHandler, with Rounds below, and
-- Check/Tracked what one round keeps. JsonRpcHandler/Ws: a round of the loop of handleWs, with Refused
-- below; Ws/Session: handleWs from the upgrade to its return and NewUpstreamWS of
-- pkg/proxy/jsonRpcProxy.go, with Ending and Released below; Ws/Writer: its goroutine that writes,
-- with Prefix below. Proxy/WebSocket: one client's connection; Steps: its rounds as a relation; Table
-- and Relay: what holds of the states that are reached; Sends: the calls of Client.Send of several
-- goroutines, an access at a time. Config: LoadRPCConfig; Order and Chains: what it loads; Settings:
-- Config and LoadConfig; Logger: config/logger.go, with Copies below. Database: NewDB of pkg/db/db.go.
-- Router: NewRouter; Served: which handler answers where; Made and Complete: what a router that is
-- made says of the chains and the routes. Commands: cmd/chainapi and cmd/wscat, with Wscat/Lines
-- below. Ipfs: the surroundings and the data; Service: service/ipfsService.go, with Storage below;
-- Limit: the quota, with Verdict below; Handler: ipfsHandler.go, with Unpin below; Serve: Proxy, with
-- Checked, Quota and Asked below; the modules named Quiet say which calls forward nothing. The modules
-- named Tests apply the theorems to concrete data.
--
-- Not modelled: the pings of WebSocket connections and the copying of bytes in Ws of rpcHandler.go;
-- the layout of a line of the log, its file and the rotation of it; the prompts of wscat; the
-- middleware of the router; NewIPFSClient of pkg/initapp/ipfs.go and getUserFile of
-- service/ipfsService.go, which nothing calls; failing writes of HTTP answers. The deadlines of
-- contexts are not modelled: a call that runs out of time is a call that fails. Handlers run at the
-- same time in the program; a run of the script is atomic in Redis, so a sequence of runs stands for
-- any order in which they take place.
pub mod Common
pub mod Config
pub mod Database
pub mod Redis
pub mod RateLimit
pub mod Utils
pub mod RpcHandler
pub mod JsonRpc
pub mod Proxy
pub mod JsonRpcHandler
pub mod InitApp
pub mod Router
pub mod Commands
pub mod Ipfs
