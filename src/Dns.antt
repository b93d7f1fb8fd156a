-- ===== src/Dns.antt =====
-- src/dns.rs: the DNS client of `--via`, `--dns` and `--asn`.
mod Bits
pub mod Wire
pub mod Names
pub mod Grammar
pub mod Answers
pub mod Safety
pub mod Message
pub mod Questions
pub mod Records
pub mod RoundTrip
pub mod Query
pub mod Receive
pub mod Failover
pub mod Promise
pub mod Family
pub mod Ascending
pub mod Members
pub mod Joining
pub mod Merging
pub mod Diverge
pub mod Texts
mod Scenarios
mod Tests
pub mod Subnet
