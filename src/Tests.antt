-- ===== src/Tests.antt =====
-- The theorems at concrete inputs.
mod KbucketRuns
mod KademliaRuns
mod MeshRuns
mod HealthRuns
mod BusRuns
mod DataRuns
mod DiscoveryRuns
mod AgentRuns
mod SecurityRuns
mod PipelineRuns
mod ResultRuns
