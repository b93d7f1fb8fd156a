-- ===== src/Types/Examples.antt =====
-- A probe result of src/types.rs for the tests. A number is an amount of hundredths, rounded down.
use httprove.Base.{
  if◌then◌else◌, ◌^◌, zero, suc, min, max, ℕ, ◌+◌, ◌-◌, ◌*◌, ◌/◌, [], ◌∷◌, none, some, true, false,
  ltb, leb, arith,
}
use httprove.Base.Int.{pos, pos_part}
use httprove.Text.{codes}
use httprove.Dns.Answers.{v4}
use httprove.Types.{CertInfo, HopResult, PhaseTimings, ProbeResult}
use httprove.Types.Number.{Float, IsTotalOrder}

-- The largest number whose square is not above `n`, from `k` on.
abbrev root_from : ℕ → ℕ → ℕ → ℕ
root_from zero k n = k
root_from (suc fuel) k n = if leb ((k + 1) * (k + 1)) n then root_from fuel (k + 1) n else k

instance abbrev pub hundredths : Float ℕ
hundredths = record {
  nought = 0;
  one = 100;
  one_half = 150;
  two = 200;
  hundred = 10000;
  plus = λ a b. a + b;
  minus = λ a b. a - b;
  times = λ a b. a * b / 100;
  over = λ a b. a * 100 / b;
  least = min;
  greatest = max;
  of_int = λ n. pos_part n * 100;
  root = λ a. root_from (a + 100) 0 (a * 100);
  ceil = λ a. (a + 99) / 100;
  smallest = 0;
  largest = 10 ^ 12;
  is_finite = λ a. true;
  ge = λ a b. leb b a;
  gt = λ a b. ltb b a;
  total_gt = λ a b. ltb b a;
}

pub hundredths-IsTotalOrder : IsTotalOrder ℕ hundredths
hundredths-IsTotalOrder = record {
  gt_trans = λ a b c h k. ground arith;
  le_trans = λ a b c h k. ground arith;
  gt_asymm = λ a b h. ground arith;
}

abbrev pub leaf : CertInfo
leaf = record {
  subject = codes "CN=a";
  issuer = codes "CN=b";
  not_after = pos 432000;
  days_remaining = pos 5;
  serial = codes "0a:0b";
  is_ca = false;
  spki_sha256 = codes "00ff";
}

abbrev pub timings : PhaseTimings ℕ
timings = record {
  dns_ms = none;
  tcp_ms = 1000;
  tls_ms = some 2000;
  ttfb_ms = 41200;
  download_ms = 0;
  total_ms = 44200;
}

abbrev pub hop : HopResult ℕ
hop = record {
  url = codes "https://a/";
  ip = v4 (192 ∷ 0 ∷ 2 ∷ 1 ∷ []);
  reused_conn = false;
  resolved_ips = [];
  http_version = codes "HTTP/2";
  status = 503;
  timings = timings;
  tls = none;
  cert_chain = leaf ∷ [];
  response_headers = (codes "Server", codes "nginx") ∷ [];
  body_bytes = 0;
  redirect_to = none;
}

-- A probe that violates one expectation and whose time to first byte is one and a half times the
-- threshold: two signals equally grave.
abbrev pub slow : ProbeResult ℕ
slow = record {
  target = codes "https://a/";
  seq = 0;
  hops = hop ∷ [];
  error = none;
  expect_failures = codes "status" ∷ [];
  total_ms = 44200;
}
