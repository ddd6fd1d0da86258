-- ===== src/Pipeline.antt =====
-- services/pipeline: the detection of duplicates, and the handling of each message.
pub mod Dedupe
pub mod Enrichment
pub mod Handle
