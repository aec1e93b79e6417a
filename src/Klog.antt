-- ===== src/Klog.antt =====
-- The logging of kernel/klogs: the formatter.
pub mod Format
mod Tests
