-- ===== src/Ext2/File/Overflow.antt =====
-- Blocks larger than the buffer of a write.
use project_dionysus.Ext2.Bytes.{Bytes}
