-- ===== src/Memory.antt =====
-- Kernel/include/memoryManager.h: what both memory managers report.
use mass_os.Prelude.{ℕ}

pub record MemStatus : Type 0 where
  pub total : ℕ
  pub free : ℕ
  pub used : ℕ
  pub used_kernel : ℕ
  pub alloc_count : ℕ

abbrev pub empty_status : MemStatus
empty_status = record { total = 0; free = 0; used = 0; used_kernel = 0; alloc_count = 0 }
