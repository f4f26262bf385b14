-- ===== src/Tests.antt =====
-- Runs of the models at concrete inputs, which the theorems are applied to.
mod Net
mod Groups
mod GroupTheorems
mod NodeTheorems
mod EdgeTheorems
mod RelayTheorems
mod InvitecodeTheorems
mod VirtualIpTheorems
mod FrameTheorems
mod HostnameTheorems
mod VersionTheorems
mod SchedulerTheorems
