-- ===== src/Tests.antt =====
-- The theorems at concrete inputs.
mod Routing
mod Filters
mod Breaker
mod Metrics
mod Pool
mod Wiring
mod Watcher
mod Reload
mod TurnHandling
mod Registry
mod Introspection
mod JsonlSink
mod Handoff
mod Top
mod Build
