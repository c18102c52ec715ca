-- ===== src/Debug.antt =====
-- internal/debug: what the server keeps of recent requests.
pub mod RingBuffer
