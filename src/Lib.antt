-- ===== src/Lib.antt =====
-- A model of s5, a proxy server for SOCKS5 and SSH with access rules, quotas and bans, and proofs
-- about it. Paths are those of the repository.
--
-- How the parts interact. A client of SOCKS5 sends a request, which src/socks/protocol.rs reads.
-- Before it may authenticate, its address passes src/security/mod.rs: the limiter of
-- src/security/rate_limit.rs, the networks of src/security/ip_filter.rs and the bans of
-- src/security/ban.rs. Its target then passes `connect_checked` of src/proxy/mod.rs: the rules of
-- src/config/acl.rs on the name, a slot of the engine, the connection, whose name
-- src/proxy/dns_cache.rs may know and whose address src/proxy/ip_guard.rs may refuse, and the rules
-- on the address. What it transfers is counted and throttled by src/quota, which src/alerting reads.
-- A client of SSH authenticates through src/ssh/handler.rs as a client of SOCKS5 does through
-- src/socks/handler.rs, which puts these parts in order. It is a user of src/auth, whose
-- configuration inherits from its group, and types into the shell of src/shell.
--
-- Files and code:
--   Common     numbers, lists, maps as association lists, texts as UTF-8 bytes, decimal numbers;
--   Net        addresses; `normalize_ip` of src/security/normalize.rs; the record `NetApi` stands for
--              the crate `ipnet` and the parsers of `std::net`; Net/Guard is src/proxy/ip_guard.rs,
--              with its masks in Net/Masks;
--   Acl        src/config/acl.rs: the checks, and in Acl/Port, Acl/Pattern, Acl/Parse and Acl/Merge
--              ports, names, the text of rules, and global, group and user rules; Acl/Decisions
--              relates the checks to each other;
--   Quota      src/quota: Quota/Window is src/quota/rolling_window.rs (Ring, History, Exact, Totals
--              and Forgets under it are proofs), Quota/Bandwidth is src/quota/bandwidth.rs,
--              Quota/UserState and Quota/Tracker are src/quota/mod.rs;
--   Socks      src/socks/protocol.rs: Domain is `validate_domain`, Stream the stream, Request the
--              greeting and the requests, Datagram `UdpHeader`; Roundtrip, Replies and
--              Datagram/Framing are proofs; Auth is src/socks/auth.rs; Steps and Handler, with
--              Handler/Relay, are `socks5_handshake` of src/socks/handler.rs, and the other modules
--              below Handler are proofs;
--   Security   Ban is src/security/ban.rs, RateLimit src/security/rate_limit.rs, Manager
--              src/security/mod.rs and src/security/ip_filter.rs;
--   Proxy      DnsCache is src/proxy/dns_cache.rs, Slots the count of connections and Connect the
--              function `connect_checked` of src/proxy/mod.rs with src/proxy/acl.rs, Pool is
--              src/proxy/pool.rs, Retry src/proxy/retry.rs, and Upstream chooses the upstream proxy;
--   Config     records of src/config/types.rs; Hours the times of the day that users and maintenance
--              windows are bound to, Maintenance the test of a maintenance window;
--   Auth       User is src/auth/user.rs, with Inheritance for the single values, Access for proofs
--              and Store for `UserStore`; Service is src/auth/mod.rs, with proofs in Totp; Password
--              takes the code of TOTP off a password (src/auth/password.rs);
--   Ssh        Auth is how src/ssh/handler.rs authenticates; the modules below it are proofs, and
--              Sessions also has the sequences of attempts of a client;
--   Shell      Parser is src/shell/parser.rs, Files src/shell/filesystem.rs, Terminal
--              src/shell/terminal.rs, Context and Commands src/shell/context.rs and
--              src/shell/commands, Executor src/shell/executor.rs, the dispatch of
--              src/shell/commands/mod.rs and the session of src/shell/mod.rs; the modules below
--              Parser, Files, Terminal and Executor are proofs, but for Terminal/Completion;
--   Api        Pagination is src/api/pagination.rs;
--   Alerts     src/alerting/mod.rs;
--   Tests      concrete runs.
--
-- State is a record and each operation a function from it to the new one, under the name that the
-- code gives it; a mutex, an atomic or an entry of a `DashMap` that a call holds is updated in one
-- step. What a call reads off the clock is an argument: a number, or a function from the place in
-- the call to what is read there. Machine integers wrap where the code's do, and saturating
-- subtraction is the subtraction of natural numbers. All loops are structural recursions over lists
-- or counters, so nothing needs fuel; only the client that follows the cursors of pages has a bound
-- on its requests, which is shown to be enough. Errors are values of the model's own types, which carry the
-- kind and, where the code does, a number, but no text.
--
-- In Common, Acl, Net, Quota, Socks, Security, Proxy and Auth/Password a text is the list of its
-- bytes, in Config, Shell and the rest of Auth the list of its characters, from and to bytes by
-- Common/Chars. Socks/Handler decodes the name and the password of a client.
--
-- Parameters: networks and the parsers of addresses (`NetApi`), floating point (`Float`), dates
-- (`Calendar`, `Platform`), the limiter of the crate `governor` (`Governor`), the scores of addresses
-- (`Reputations`), the answers of the network (`Network`), keys (`Platform`), hashing, TOTP and
-- certificates (`Verifiers`), URLs (`Urls`), `Base64`, and the commands show, ping and resolve (`Extended`). Tests
-- gives an instance of each.
--
-- Not modelled: reads and writes of sockets beyond the bytes of the protocol, logs, audits and
-- metrics, the handlers of the HTTP interface, channels of SSH, configuration files, and start-up;
-- these call the parts above or show what they hold.
pub mod Common
pub mod Net
pub mod Acl
pub mod Quota
pub mod Security
pub mod Proxy
pub mod Tests
pub mod Socks
pub mod Ssh
pub mod Shell
pub mod Config
pub mod Auth
pub mod Api
pub mod Alerts
