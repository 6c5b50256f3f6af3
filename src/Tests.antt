-- ===== src/Tests.antt =====
-- Runs on concrete inputs, and the theorems applied to them.
mod Codecs
mod CoreRuns
mod RoutingRuns
mod JourneyRuns
mod SameTargetRuns
mod TransferRuns
mod DiscoveryRuns
mod TransportRuns
mod IdentityRuns
mod CliRuns
mod PushRuns
mod RegisterRuns
mod ConcurrentRuns
mod ApartRuns
