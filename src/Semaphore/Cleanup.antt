-- ===== src/Semaphore/Cleanup.antt =====
-- `sem_cleanup_for_process` of Kernel/c/semaphore/semaphore.c, run for a dying process.
use mass_os.Kernel.{Kernel}
