-- ===== src/Tests.antt =====
-- The theorems at concrete inputs, and runs of the models of src/ and include/.
mod Config
mod Epoll
mod Poller
mod Platform
mod Connection
mod Reactor
mod Timers
mod Select
mod Logger
mod Server
mod Balance
mod Race
mod Acceptor
mod Round
mod Clients
mod Application
