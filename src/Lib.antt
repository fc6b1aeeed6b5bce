-- ===== src/Lib.antt =====
-- tor-socks5: a SOCKS5 proxy over Tor bridges.
--
-- The proxy authenticates its clients, checks them against an allow-list, resolves names through
-- its own DNS cache, and reaches Tor through bridges whose health it remembers.
--
-- Files.
-- - Base, Base/Tests, Base/Lists: tests on numbers, lists and predicates over lists.
-- - OrdMap: `BTreeMap` of the Rust library as an association list in key order, with its laws. A
--   key type is a type with an instance of `KeyOrd`.
-- - Best: `take_best` of packages/bridge-store/src/stats.rs over any comparator and any heap.
--   `Best/Scan` has a heap, a list that is searched, for the tests; `Best/Order`,
--   `Best/Insertion`, `Best/Stable` and `Best/Selection` hold proofs.
-- - Store: packages/bridge-store. `Store/Entry` has the records of lib.rs, `Store/Observe` the
--   calls of observe.rs, `Store/Rank`, `Store/Stats` and `Store/Summary` the queries of stats.rs
--   under their names in the source (the two `is_retired` are `is_retired` of an entry and
--   `bridge_is_retired` of the store). Times are nanoseconds since the earliest instant that an
--   `OffsetDateTime` holds, and `now - t >= window` is written `t + window <= now`. A `u32`
--   counter saturates as in the source. `Store/File` is the reading of the file in
--   persistence.rs, `load` being `load_store`, and `Store/Loaded` its proofs; the writing of the
--   file is left out. `Store/SourceText` has the escaping of labels there; its `decode_source`
--   gives the bytes that the source then reads as UTF-8.
-- - Acl: packages/proxy-config/client-acl. `Acl/Rule` is matcher.rs, `Acl/Clients` the allow-list
--   of lib.rs, `Acl/Endpoint` is socks5.rs. An address is a number of 32 or 128 bits; `Rule::Any`
--   is `anyone`; `AllowedClients::allows` is `client_matches`. `Acl/Parser` and `Acl/AllowList`
--   are parser.rs; `AllowedClients::from_str` is `read_clients`, and the texts of the reasons are
--   a data type. The other files of Acl hold the proofs.
-- - Auth: packages/auth. `Auth/Registry` is user.rs and users_config.rs, `Auth/Argon` is
--   compute_hash.rs, `Auth/State` is state.rs: a login takes the state and the registry file and
--   gives a `Reply`. `publish` is the end of `TempFileGuard::finish` in
--   packages/persist-lock/src/temp.rs. `resolve_init` is written in three parts, the checks on the
--   registry (`settle`) and the adoption (`adopt`) being parts of it. `Auth/Sound`, `Auth/Login`,
--   `Auth/Refusal`, `Auth/Adoption` and `Auth/Access` hold the proofs.
-- - OrdMap/Text: a string is the list of its UTF-8 bytes. The `DashMap` of the cache is an
--   association list too.
-- - Dns: packages/dns-server. `Dns/Cache` is cache/cache.rs: `Entry` is `CacheItem`, the part of
--   `get_at` under the lock is `get_entry`, `admit` is `admit` with its loop `evict`. The hash
--   map is a list in its order of iteration, which the theorems leave open. `Dns/Evict`,
--   `Dns/Ageing` and `Dns/Order` hold proofs. `Dns/Overrides` is overrides/overrides.rs, whose
--   two indices into a text are the suffixes there; its `self_reference` takes the route's local
--   address, which the source asks the system for. `Dns/Glob` says what a pattern matches.
--   `Dns/Statistics/Ledger` has the counters of statistics/query_statistics.rs and the batches of
--   statistics/query_statistics_store.rs; `Dns/Statistics/System` has `record_at`, the stop and
--   the loop of the thread (`run_with_clock`, here `run`) as atomic steps that interleave, a
--   failed exchange of `enter` included. What only the thread writes, it writes in one step. The
--   rows of the database, the replies and the texts of errors are left out: whether the database
--   took a batch is an input. `Dns/Statistics/Accounts`, `Drained`, `Shutdown`, `Outcomes`,
--   `Reached`, `Ends`, `Turns`, `Nearer` and `Finish` hold the proofs.
-- - Fetch: packages/bridge-fetcher. `Fetch/Reader` and `Fetch/Chunked` are http/framing.rs, over
--   the stream of `Fetch/Wire`: the blocks that will arrive, and then the end or an error. The
--   decoder is written over the two reads it makes (`Reads`), so that `Fetch/Plain` can give it
--   the whole input at once. `Fetch/Exact`, `Fetch/Line`, `Fetch/Scan`, `Fetch/Pieces`,
--   `Fetch/Total` and `Fetch/Framed` hold the proofs. `Fetch/Dedup` is fetch/dedup.rs.
--   `Fetch/Target` is parse/url_parse.rs with the request of http.rs, `Fetch/Body` the reading of
--   a response there and `Fetch/Loop` `fetch_one_inner`, which also gives the requests that it
--   sent. `Fetch/Bounded` and `Fetch/Origin` hold their proofs.
-- - Socks: packages/socks5-proto. `Socks/Client` is client.rs, its `Error` being `ConnectError`,
--   over the bytes that the peer will have sent and the number of writes that still succeed; a
--   deadline that elapses is given by the stream it leaves. `Socks/Onion` is `is_onion` of
--   lib.rs. `Socks/Exchange`, `Socks/Sound` and `Socks/Request` hold the proofs.
-- - Health: apps/socks5-proxy/src/tor/conn_health.rs, with `ConnErrorKind` and `ConnStage` of
--   server/server.rs. `Health/Counters` has the calls run alone; `Health/Steps` has their atomic
--   operations as a step relation, in which connections and a summary take turns in any order.
--   `Health/Rate` holds proofs. `Health/Failure` is `classify_conn_failure` of
--   server/server.rs; an error is the list of the texts and types of its causes.
-- - Pool: apps/socks5-proxy/src/bridges/candidate_pool.rs. `Pool/Candidates` has its operations,
--   `take` being `take_first`; an empty iterator and one without matches are one case. Its file is
--   the text that `save` writes and `load` reads; a file that cannot be read is left out.
--   `Pool/Invariant`, `Pool/Calls`, `Pool/Moved`, `Pool/Taken` and `Pool/Saved` hold the proofs.
--
-- The parts meet in these places: an account of the registry holds an allow-list of Acl and its
-- endpoints, and `client_allowed` of Auth asks the rules of Acl; the kinds that `Health/Failure`
-- finds are those that the counters of `Health/Counters` count.
--
-- Parameters. Argon2, the PHC format and the keyed hash are the record `Primitives`, with
-- `PrimitiveLaws` for what the code relies on: a computed hash accepts its password and no other,
-- and the keyed hash tells its inputs apart, which holds of the real ones up to collisions. The
-- parser and printer of the registry file and of socket addresses are functions the theorems range
-- over. The salt drawn, the file lock and how far the publishing of the file comes (not to the
-- rename, to the rename but not through the sync of the directory, or to its end) are the record
-- `Outside`. `BinaryHeap` of the Rust library is a record of operations with the laws of its
-- documentation, which leave the arrangement of the items open. The bridge line, its identity
-- `key_of` (bridge_probe::bridge_identity) and the source label are types and functions that the
-- theorems range over. The URLs of the url crate, the response heads of the httparse crate and the
-- connections, TLS included, are too. So are the test for UTF-8, `str::trim`, `split_whitespace`,
-- the parsers of numbers and times, and the parser of IP addresses.
--
-- Bounds. Every loop runs over a list but `evict`, `scan_host` and those of Fetch. `admit` gives
-- `evict` one unit of fuel for each entry: each turn of it removes an entry. `host_matches` gives
-- `scan_host` (host + 1) * (pattern + 1) units, of the lengths of the texts: the loop begins a
-- longer match of a star at most once for each byte of the host. `fill` has a unit for each byte
-- that is missing, `scan` and `decode` one for each byte to come and one more, and so have the
-- loops of `Fetch/Body`: every turn of them that is not the last reads a byte.
--
-- Not modelled: the network and the file system, logging, the Android and command line front
-- ends, the vendored arti crates, and the locking of shared state, which makes each modelled call
-- atomic but those of `Health` and `Dns/Statistics`, whose atomics are modelled one by one.
pub mod Base
pub mod OrdMap
pub mod Best
pub mod Store
pub mod Acl
pub mod Auth
pub mod Dns
pub mod Fetch
pub mod Socks
pub mod Health
pub mod Pool
