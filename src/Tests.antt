-- ===== src/Tests.antt =====
-- The theorems at concrete inputs, and test runs of the definitions.
mod Fixtures
mod OfQueue
mod OfScheduler
mod OfContext
mod OfSemaphore
mod OfThreads
mod OfMemory
mod OfCreate
mod OfLifecycle
mod OfKernel1
mod OfKernel2
mod OfWakeup
mod OfRest
mod OfPattern
mod OfPeriod
