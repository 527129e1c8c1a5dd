-- ===== src/Tests.antt =====
-- Concrete inputs at which the theorems of the other modules apply.
mod Files
mod Banks
mod Codecs
mod Code
mod Traces
mod Tracing
