-- ===== src/Tests.antt =====
-- Runs of the modelled functions on concrete inputs, and the theorems at such inputs.
pub mod HeaderRuns
pub mod WriterRuns
pub mod ReaderRuns
pub mod StarvationRuns
pub mod ControlRuns
pub mod CommandRuns
pub mod MediaRuns
pub mod HandshakeRuns
pub mod SessionRuns
pub mod LoopbackRuns
pub mod IncomingRuns
pub mod MediaStreamRuns
pub mod ServerRuns
pub mod WritingRuns
pub mod PlaybackRuns
pub mod ServiceRuns
