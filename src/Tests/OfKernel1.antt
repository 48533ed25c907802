-- ===== src/Tests/OfKernel1.antt =====
-- The accounting of the first kernel on the system of the fixtures.
use ecp_c.Kernel2.Scheduler
