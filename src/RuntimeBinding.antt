-- ===== src/RuntimeBinding.antt =====
-- hlinor_registry/runtime_binding.py, with the gate of hlinor_registry/integrations/_gate.py: one
-- governed invocation of a bound tool. The components that it calls are a record of services on a
-- world; what the call has reached so far is a frame, which outlives an exception. Calls without a
-- correlation context; the modules below follow the body of `invoke` stage by stage.
pub mod Frame
pub mod Signals
pub mod Request
pub mod Receipt
pub mod Invoke
pub mod Stability
pub mod Keeping
pub mod Post
pub mod Backing
pub mod Guarded
pub mod Release
mod Tests
