-- ===== src/Lib.antt =====
-- Verification of httprove, a probe for HTTP services: shallow embeddings of its decision logic,
-- its wire formats and its digests, translated from the Rust sources under `src/`, with the
-- theorems that make them correct.
--
-- The parts and how they meet. `src/probe.rs` makes a probe: it follows redirects, request by
-- request, checks the answer against the expectations, and gives a `ProbeResult` (`src/types.rs`);
-- its keep-alive prober does so over one connection as long as it lasts. `src/verdict.rs` judges
-- that result PASS, DEGRADED or DOWN; `src/watch.rs` turns the verdicts of one target into breach
-- and recovery events; `src/chain.rs` analyses the certificates that came with it;
-- `src/tui/app.rs` and `src/stats.rs` keep what the targets have given; `src/diff.rs` compares two
-- probes, `src/fanout.rs` the addresses of one host; `src/tls_grade.rs` and `src/cache_audit.rs`
-- grade one answer. `src/exporter.rs` serves what its targets have given, as the metrics that
-- `src/output/prom.rs` prints from the statistics and the last success of each; `src/serve.rs` is
-- a server that answers with what it was asked. `src/cli.rs` reads the command line;
-- `src/cert_check.rs` looks at the certificates of many hosts at once; `src/dns.rs` resolves host
-- names at chosen servers, `src/ipinfo.rs` asks it whose an address is, and `src/trace.rs` reads
-- the route to one; `src/update/version.rs` and `src/hash.rs` serve the self-update.
--
-- - Base: tests, conditionals, lists measured by native numbers, `Result` and the chains of the
--   `?` operator, integers, facts by tables; Base/Deque is a queue cut to a length, as several parts
--   keep one. Text: the operations of `str`, on lists of code points or of bytes. Headers: the
--   search for a header, whatever the case of its name.
-- - Dns (`src/dns.rs`): Wire holds the names (`encode_qname`, `skip_name`), Answers the parser
--   (`parse_answers`), Subnet the option of `--ecs` (`parse_ecs`), Query the packet
--   (`encode_query`), Receive the loop of `query_server`, Failover `resolve_via_servers` with
--   Promise for what it promises, Family `query_server_family`, Diverge `ip_sets_diverge`, Texts
--   `parse_txt` and `parse_ptr`. Message and Grammar say apart from the code what a message is;
--   Safety and RoundTrip relate the parser to it. Ascending, Members, Joining and Merging are about
--   the addresses of a family.
-- - Types (`src/types.rs`): `ProbeResult` and what is read off it. Types/Number: the operations of
--   `f64`, as a record that the clients take as an instance argument.
-- - Verdict (`src/verdict.rs`): `assess`; Signals says when it finds nothing, Worst which signal
--   makes the headline.
-- - Watch (`src/watch.rs`): `BreachTracker::evaluate` on an explicit state, and its run over a
--   sequence of results, as `run_cli_mode` of `src/lib.rs` makes it.
-- - Chain (`src/chain.rs`): `analyze`, `cn_of`; Chain/Base64 `base64_decode`; Chain/Handshake
--   `decode_tls_error`.
-- - Grade (`src/tls_grade.rs`): `grade`, its rules one by one; Score holds the score against the
--   list of deductions.
-- - Hash (`src/hash.rs`): SHA-256; Words is the compression function, Padding, Standard and Digest
--   hold the proofs.
-- - Stats (`src/stats.rs`): the samples of a phase and `StatsCollector::record`; Summary is
--   `snapshot` with its percentiles, and Percentiles their order; Counters and Tallies are about the
--   counters; printing and sorting addresses is a parameter.
-- - Runner (`src/runner.rs`): `probe_loop` on explicit rounds, each of which says what the clock,
--   the cancellation, the pause, the probe and the channel did; `sleep_until` is a parameter.
-- - Probe (`src/probe.rs`, `src/cert.rs`): the loop of `probe`; Redirects and Requests say where
--   it ends and what it asks. Checks is `evaluate_expectations`, Exchange what a hop holds, Body the
--   reading of a body, KeepAlive the prober that keeps its connection and Reuse when it does; Whole
--   puts the loop and the checks together.
-- - Cli (`src/cli.rs`): the lists of servers and expectations; Resolve the arguments of
--   `--resolve`, Pinned and Overrides what they mean, Warn those of `--warn`.
-- - CacheAudit (`src/cache_audit.rs`): `audit`; Names is the reading of header names, Lifetime is
--   the lifetime said apart from the code, Issues says when there is none.
-- - Diff (`src/diff.rs`): `fingerprint` and `diff_fingerprints`; Sorting and Reorder are about the
--   order of the addresses, Same about no difference.
-- - Fanout (`src/fanout.rs`): the rows of the addresses, and which stand out.
-- - Exporter (`src/exporter.rs`): a request from the reads to its effect, and what is noted of the
--   results; Reading is about the first line, Noting about the targets.
-- - Output (`escape_label` of `src/output/prom.rs`, `src/output/html.rs`, `src/otlp.rs`): what
--   they write and read as text; Escapes is about labels and HTML, Hexadecimal about trace
--   identifiers.
-- - Prom (`src/output/prom.rs`): `push_section`, `render` and `render_exporter`, with a family of
--   samples for each metric; Traffic, Last and Health hold the families and Render their order.
--   Reading is a reader of the text format said apart from the code; Labels and Sound relate it to
--   what is printed of legal families, Legal says which families are legal, Complete puts these
--   together.
-- - CertCheck (`src/cert_check.rs`): the targets of a check and their rows; Pool is its tasks as a
--   state and the events that change it, with Steps, Counts and Finish for what the pool keeps and
--   how it ends.
-- - Trace (`src/trace.rs`): the output of `traceroute`; Reading is about one line of it.
-- - Ipinfo (`src/ipinfo.rs`): `lookup` and `classify`; Names holds the names that are asked for
--   against the DNS client.
-- - App (`src/tui/app.rs`): the state of the interface and its operations; Owners is about the
--   index, Routing follows the results to their targets.
-- - Serve (`src/serve.rs`): `handle` with its store; Collecting is the body of a request, Keeping
--   what the store holds, Address the address to bind to.
-- - Version (`src/update/version.rs`): `parse` and `is_newer`.
--
-- Bounds and fuel. A `usize` has 64 bits, and `checked_add` fails at 2 ^ 64. `skip_name` runs on
-- one round more than the buffer has bytes, and each round goes past a byte at least; `sha256`
-- pads in at most 64 rounds, since at most 63 zeros are missing, and cuts at most as many chunks
-- as there are bytes. `parse_name` follows at most 128 labels and pointers, as the source does;
-- the segments of a TXT record are read in one round more than its data has bytes. The loop of
-- `probe` runs on `max_redirects + 1` rounds, and no round starts after a hop whose index is
-- `max_redirects`, so that a `u32` index does not wrap. A body is kept up to 2 ^ 20 bytes. The
-- numbers of the requests of a server wrap at 2 ^ 64. A `u32` counter wraps at 2 ^ 32. An index
-- out of bounds is a result of its own (`panicked`), which a theorem excludes. Days are exact
-- integers, and the counters of Stats and Exporter exact numbers: the sources stay far from the
-- bounds of an `i64` and a `u64`.
--
-- What is not modelled: sockets, TLS, files, the terminal and the formatting of numbers, which for
-- the metrics is a parameter (`Format`). A line of text that `format!` makes is a value that holds
-- what is written into it. The standard library's parser of IP addresses is a parameter of
-- `parse_ecs`, its lossy decoding of UTF-8 one of `parse_txt` and `parse_ptr`; its parsers of
-- `f64`, of numbers and of socket addresses, the `url` crate and the library that writes JSON are
-- parameters of the parts that call them. So are the connection of a hop, the exchange over it,
-- and the look-up and the probes of a fanout. The pool of CertCheck runs on one event for each
-- task that ends, so as many as there are targets are enough. Of the exporter's connections
-- neither their number nor their time limit is modelled. An `f64` is known by its operations
-- alone, and `total_cmp` by the laws of a total order.
pub mod App
pub mod Base
pub mod CacheAudit
pub mod CertCheck
pub mod Chain
pub mod Cli
pub mod Diff
pub mod Dns
pub mod Exporter
pub mod Fanout
pub mod Grade
pub mod Hash
pub mod Headers
pub mod Ipinfo
pub mod Output
pub mod Probe
pub mod Prom
pub mod Runner
pub mod Serve
pub mod Stats
pub mod Text
pub mod Trace
pub mod Types
pub mod Verdict
pub mod Version
pub mod Watch
