-- ===== src/Lib.antt =====
-- htn-tunnel: a server that exposes a client's local HTTP or TCP port on a public subdomain or port.
--
-- A client connects to the server (internal/server/server.go), authenticates with the messages of
-- internal/protocol, and asks for tunnels. The server keeps them in a registry
-- (internal/server/tunnel_manager.go), which the proxies consult for every request, and counts them
-- against the quota of an API key (internal/server/key_store.go). The HTTP proxy
-- (internal/server/http_proxy.go) carries a visitor's request to the client that has the subdomain and
-- logs it; the dashboard (internal/dashboard/handler.go) shows users and the admin what is stored.
--
-- The modules:
--   Prelude     lists, maps, texts (lists of bytes) and integers that the models share
--   Protocol    internal/protocol/codec.go and message.go: Encode is `encode`, Decode `decode`,
--               DecodeInto `decode_into`; a reader is the list of the bytes to come
--   Subdomain   internal/server/tunnel_manager.go: ValidateSubdomain and RandomSubdomain
--   Tunnels     internal/server/tunnel_manager.go: the record TunnelManager, a function for each
--               method that takes the lock, and register_tcp, in which other goroutines take steps
--               between the two locked parts
--   Keys        internal/server/key_store.go: the record KeyStore and a function for each method;
--               Keys/Load has NewKeyStore and the key file
--   Tokens      internal/server/auth.go: the legacy tokens (TokenStore), on bcrypt as an argument
--   Limits      internal/server/auth.go: the rate limiters, on token buckets as an argument
--   Server      internal/server/server.go: handleTunnelRequest is `handle_tunnel_request`,
--               cleanupSession `cleanup_session`; Server/Access has handleConnection and
--               handleRegister, Server/Control the control messages and the idle timeout
--   RequestLog  internal/server/request_log.go: the circular buffer, for any capacity (the source's is
--               max_log_entries), its subscribers, the top paths, and TrafficStats in RequestLog/Traffic
--   Proxy       internal/server/http_proxy.go: handleTLSConn and serveRequest over the registry;
--               Proxy/Headers the forwarding headers, Proxy/Writer the response writer, Proxy/Streams
--               RoundTrip and the listener of one connection, Proxy/WebSocket the upgrades; Hosts,
--               Routing, Tunnelled, Forwarding and Delivery have the theorems
--   Dashboard   internal/dashboard/handler.go: `serve_http` for every route; Dashboard/Shapes has the
--               conversions of tunnel_manager.go and key_store_adapter.go, Dashboard/Updates
--               config_provider.go, Dashboard/Stream serveSSE and request_log_adapter.go
--   Client      internal/client/client.go and tunnel.go, and requestTunnel of reconnect.go
--   Cli         cmd/htn-tunnel/main.go: arguments, addresses, and the choice of a subdomain
--   Reconnect   internal/client/reconnect.go: Run as a sequence of rounds, runHeartbeat, and
--               extractSubdomainFromURL
--   Config      internal/config/config.go: ServerConfig, defaults, applyEnv and LoadServerConfig
--   Tcp         internal/server/tcp_proxy.go: handleTCPConn is `handle_tcp_conn`, a run of the steps of
--               its two goroutines in any order
--   Upkeep      cmd/server/backup.go and upgrade.go, on a map from paths to contents: runBackup,
--               runRestore and runUpgrade are `run_backup`, `run_restore` and `run_upgrade`
--   Tests       concrete runs
--
-- Conventions: a method that locks is one step on its state; the clock, random draws, the disk and
-- the listeners of the operating system are arguments. Go's maps are lists with one entry for a key;
-- a range meets the entries in the list's order. Closing a session or a listener is an effect that
-- a method returns. A Go int that may be negative is ℤ; counts and ports are natural numbers.
-- `receive` runs on fuel, one unit for a message; the port search has the hundred attempts of the
-- source, and the search for a random subdomain its ten. A handler of the server is the sequence of
-- its calls; the calls of other sessions in between are modelled inside RegisterTCP alone.
--
-- Texts are bytes; case is that of ASCII. The digits of a port are read off with twenty units of fuel,
-- more than any 64-bit number has digits. The reverse proxy of net/http/httputil is an argument that
-- gives the calls of the response writer; net.SplitHostPort, time.Duration.String, strconv.Atoi and
-- the JSON codec are arguments too.
--
-- Not modelled: JSON, yamux, TLS certificates and the copying of bytes, which belong to libraries;
-- the start, the wizard and the health check of the server in cmd/server, which are input and
-- output; the static pages; the terminal output and the login callback of the client. Writing a file
-- is a Boolean that says whether it succeeds.
pub mod Prelude
pub mod Protocol
pub mod Subdomain
pub mod Tunnels
pub mod Keys
pub mod Tokens
pub mod Limits
pub mod Server
pub mod RequestLog
pub mod Proxy
pub mod Reconnect
pub mod Cli
pub mod Client
pub mod Config
pub mod Dashboard
pub mod Upkeep
pub mod Tcp
pub mod Tests
