-- ===== src/Tests.antt =====
-- The theorems at concrete inputs, and runs of the models.
mod Barrier
mod Cache
mod FileServer
mod Loop
mod AioServer
mod SelectServer
mod Threads
mod ReaderWriter
mod NsMutex
mod VectorAdd
mod Zemaphore
mod Cores
mod Rendezvous
mod TimeServer
mod Counters
mod Memory
mod NoLock
mod ForkJoin
