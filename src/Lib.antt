-- ===== src/Lib.antt =====
-- OrderEngine: an INI configuration and a TCP server with one accepting and several working
-- reactors, in C++. Each reactor runs a loop in a thread: it waits on epoll, dispatches the active
-- channels to their callbacks, and runs the tasks that were queued for it.
--
-- Text, Config: src/common/config.cpp and include/common/config.h. Text has the string operations,
--   Config the settings with their getters and setters, Config.Parse the parser. `parse_ini`,
--   `load`, `reload`, `get_int` and so on are `parseINI`, `load`, `reload`, `getInt`. A file system
--   is a function from names to contents. Config.Document describes a document and its meaning
--   without the parser.
-- Channel: src/network/channel.cpp and include/network/channel.h, for Linux. A mask is the bit
--   pattern of an `int`.
-- Poller: `EpollPoller` of src/network/poller.cpp, over an epoll instance that is a parameter.
--   Poller.Select is `SelectPoller` of the same file, with the channel's side for Windows; an
--   `fd_set` has room for `FD_SETSIZE` descriptors, 64 in winsock2.h.
-- Registry: `updateChannel` and `removeChannel` of src/network/reactor.cpp, between Channel and
--   Poller. The assertions count as they do without NDEBUG: a failed one gives no result.
-- Platform: the abstract class `Poller` of include/network/poller.h as an interface with its laws.
--   Platform.Linux and Platform.Windows fill it with the two pollers, each behind `Channel` and
--   `Reactor`, and Platform.Agree compares them.
-- Reactor: the loop, the tasks and the wakeup of src/network/reactor.cpp, over an eventfd that is a
--   parameter. Reactor.Schedule takes the same operations as steps of several threads,
--   and Reactor.Timers `runAt`, `runAfter` and `runEvery` with their sleeping threads.
-- Connection: src/network/tcp_connection.cpp. The results of `read` and `write` and the time are
--   arguments; `wire` is what the kernel took. Connection.Address is `getPeerAddress`, over the text
--   that `inet_ntoa` gives.
-- Session: a connection behind its channel, with the callbacks that src/network/tcp_server.cpp sets;
--   Session.Round has the rounds of a sub-reactor's loop over all its connections, over Poller, and
--   Session.Table the table of connections through them.
-- Server: src/network/tcp_server.cpp: start, stop, accepting, the choice of a reactor, the table of
--   connections and the broadcast. It uses the operations of Reactor and Connection. Server.Race
--   takes the entries and removals of connections as steps of several threads, with the calls of
--   the client's callback, and Server.Owners counts the shared pointers along them and along the
--   batches of tasks. Server.Acceptor is the accepting channel on the main reactor, over Registry, and
--   Server.Threads the threads of `start`, any of which the system may refuse.
-- Application: src/main.cpp, from the configuration file to the exit code, over Config and Server;
--   Application.Echo is a client's dispatch with it and Application.Rounds the rounds with all the
--   clients of a sub-reactor, over Session; Application.Failure is `main` with its handler, over
--   Server.Threads.
-- Logger: src/common/logger.cpp and include/common/logger.h, as the calls of the library spdlog.
-- Prelude has what these share, and Tests the theorems and runs at concrete inputs.
--
-- Loops over what the system answers are recursions on the list of the answers; where the list ends
-- before the loop does there is no result, and a theorem on the loop says when it ends. The only
-- fuel is the number of digits that `to_string` writes, 10, which is enough for an `int`.
--
-- Not modelled: the calls of the logger from the other parts, since no decision depends on them;
-- the wakeup of a reactor under Windows; the shared pointers through the clearing of the table in
-- `stop` and the destruction of a reactor with tasks that it has not run; a shortage
-- of memory, and what it throws; floating point, which is an interface with the conversions; and the
-- headers of include/services and include/cache, which have no implementation.
pub mod Prelude
pub mod Text
pub mod Config
pub mod Channel
pub mod Poller
pub mod Registry
pub mod Platform
pub mod Reactor
pub mod Connection
pub mod Session
pub mod Server
pub mod Logger
pub mod Application
mod Tests
