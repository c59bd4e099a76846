-- ===== src/Tests.antt =====
-- Concrete inputs: a server in memory, and the theorems at runs of the code over it.
mod Host
mod Request
mod Http
mod Pump
mod WebSocket
mod Gathered
mod Socket
mod ProcessPool
mod Redis
mod Global
mod Packing
mod Module
mod Liveness
mod Failing
mod Scoped
mod Round
mod System
mod Lifetime
mod Logger
mod Commands
mod OverRedis
