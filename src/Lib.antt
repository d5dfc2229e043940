-- ===== src/Lib.antt =====
-- A model of the Sputnik engine of the SmartMet server: the engine by which the frontends of a
-- cluster find the backends, and by which they choose the backend for a request.
--
-- The program. A frontend sends a discovery request, with the number of the round, to the
-- configured listeners. A backend that is not paused, not under high load and not shutting down
-- replies with its host, its services and its info requests. The frontend registers every service
-- twice, under its URI and under `/host` followed by the URI, and counts the reply. At the deadline
-- of the round it drops whatever does not have the number of this round, if at least one reply has
-- come or too many rounds have had none, and starts the next round. A request is forwarded to a
-- backend from the list of its URI's prefix, which one of seven forwarders chooses; a sentinel for
-- each backend counts the connections that it has left unanswered.
--
-- The files, and the code that they model:
--   Sentinel                   sputnik/BackendSentinel.h and .cpp
--   Backend                    sputnik/BackendServer.h, BackendService.h, BackendInfo.h and
--                              BackendInfoRequest.h
--   PrefixMap                  sputnik/URIPrefixMap.h and .cpp
--   Sticky                     sputnik/StickyForwarder.h and .cpp: key, hash, and selection
--   Forwarder                  sputnik/BackendForwarder.h and .cpp, and the other forwarders: the
--                              virtual calls are functions of the mode
--   Services                   sputnik/Services.h and .cpp: the registry; Services/Lists has the
--                              list of a URI with its forwarder
--   Services/Reports           the queries and the status report of sputnik/Services.cpp
--   Messages                   BroadcastMessage.proto and sputnik/Messages.cpp
--   Pause                      setPause, setPauseUntil, setContinue and isPaused of
--                              sputnik/Engine.cpp
--   Engine                     the handlers, the discovery cycle and frontendMode of
--                              sputnik/Engine.cpp
--   Engine/Object              the engine as a whole: launch, backendMode, startListening,
--                              shutdown and the queries that it passes on, of
--                              sputnik/Engine.cpp
--   Engine/Settings            the constructor of sputnik/Engine.cpp; Engine/Settings/Page has
--                              status and URI, and Engine/Settings/Launched goes from the
--                              constructor to the first request
--   Cluster                    a frontend with its backends, and a network that may lose, repeat
--                              and delay datagrams; Cluster/Round is one round of discovery in it
--   Locks                      the locks that the methods take, in their order, with the uses of
--                              the data that they guard; Locks/Threads runs threads under them
--   Services/Abstract          what the registry stands for: three functions, of URIs, of names of
--                              info requests, and of backends, with the URIs and the prefixes
-- A method has its name in snake case, as a function of the state that gives the new state. The
-- other modules below Cluster, Engine, Services, Forwarder, Sticky, PrefixMap, Pause, Sentinel,
-- Messages and Locks prove; Engine/Reach has the frontend as a state machine, and Messages/Keeping
-- what a reply may bring into the registry. Tests has runs at fixed inputs.
-- Prelude, Text, OrderedMap and Outcome are shared: numbers and lists, `std::string` as a list of
-- bytes, `std::map` and `std::set` as lists in key order, and calls that may throw as results.
--
-- Parameters. Platform is the floating-point arithmetic, Boost.Random, with what it documents of
-- its ranges as IsRandom (and, in Forwarder/Least, of its weights as IsFair, and, in
-- Forwarder/Weights, of the order of the numbers as IsOrdered), and the parsing of addresses and
-- ports; Spine is what the engine reads of the SmartMet server; what Protocol Buffers makes of
-- the bytes of a datagram is the argument `parse`, and what it writes is `serialize`; that it
-- reads what it writes is a hypothesis, which Tests/Wire shows to hold of a simple format. The
-- clock, the answers of the sockets, the configuration file, and whether the server is shutting
-- down are arguments of each call.
--
-- Bounds. An `unsigned int` is a natural number that wraps by `% 2 ^ 32`, a `std::uint64_t` one
-- that wraps by `% 2 ^ 64`; an `int` is an integer, which `numeric_cast` keeps in its range; the
-- sum of a threshold and its slack wraps as in two's complement. `digits` is the one function on
-- fuel: a number has at most as many digits as its value plus one, which is the fuel given. In
-- the modules but Locks a call is one step, which its locks provide for; in a call the Reactor
-- answers all questions alike.
--
-- Not modelled: the calls of sockets and timers but for how they end, the locks of the Reactor,
-- setForwarding and setReactor on another thread (they take no lock, and launch calls them
-- before it starts one), the printing to the log and the MYDEBUG output, the text of exceptions.
-- A reply that a backend fails to send is one that the network loses. The kill of the process by
-- `removeBackend` is the result `none`.
pub mod Prelude
pub mod Text
pub mod OrderedMap
pub mod Platform
pub mod Sentinel
pub mod Backend
pub mod PrefixMap
pub mod Outcome
pub mod Spine
pub mod Sticky
pub mod Forwarder
pub mod Services
pub mod Messages
pub mod Pause
pub mod Engine
pub mod Cluster
pub mod Locks
pub mod Tests
