-- ===== src/Worker.antt =====
-- worker: the buffer between the reader and the writer, the reconnect delays, and the Finnish source.
pub mod Queue
pub mod Backoff
pub mod Finland
