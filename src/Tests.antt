-- ===== src/Tests.antt =====
-- Concrete inputs: runs of the code, and an input at which the hypotheses of each theorem hold.
mod Fractions
mod Samples
mod Messages
mod Wire
mod Services
mod Gateway
mod Finland
mod Fixed
mod Globe
mod Live
mod Stream
mod Accounts
mod Control
