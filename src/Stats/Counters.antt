-- ===== src/Stats/Counters.antt =====
-- The counters of src/stats.rs: what holds of them after any sequence of probes.
use httprove.Base.{ℕ, ◌+◌, ◌≤◌, List, [], ◌∷◌, ◌≡◌}
use httprove.Types.{Text}
use httprove.Stats.Recording.{StatsCollector}

-- The sum of the counts of a table.
abbrev pub counted : {K : Type 0} → List (K × ℕ) → ℕ
counted [] = 0
counted ((k, n) ∷ rest) = n + counted rest

-- Every probe is counted once, as succeeded or as failed, and every succeeded one has a sample of each
-- phase that is always measured; the tables, the votes and the other samples are no more than there was.
pub record IsConsistent {W : Type 0} (s : StatsCollector W) : Type 0 where
  pub split : s.sent ≡ s.succeeded + s.failed
  pub violations : s.expect_failed ≤ s.succeeded
  pub apdex : s.apdex_satisfied + s.apdex_tolerating ≤ s.succeeded
  pub reused : s.hops_reused ≤ s.hops_total
  pub versions : counted s.http_version_counts ≡ s.hops_total
  pub statuses : counted s.status_counts ≤ s.succeeded
  pub ttfb_samples : s.phases.ttfb.count ≡ s.succeeded
  pub total_samples : s.phases.total.count ≡ s.succeeded
  pub download_samples : s.phases.download.count ≡ s.succeeded
  pub tcp_samples : s.phases.tcp.count ≤ s.succeeded
  pub dns_samples : s.phases.dns.count ≤ s.succeeded
  pub tls_samples : s.phases.tls.count ≤ s.succeeded
  pub goodputs : s.throughput.count ≤ s.succeeded
