-- ===== src/Lib.antt =====
-- ProcessManagerModule: the library that a module of the process manager is linked with. A module
-- sends requests to services over UDP and repeats them until they are answered, runs the handlers
-- of requests that it receives, and runs the timers of its user.
--
-- The parts, and the files that model them:
--   * Identifier: Source/src/Types.cpp, the identifiers of modules and services, as bit patterns
--     below 2 ^ 32. ApplicationDetails: Source/src/ApplicationDetails.cpp, their length as texts.
--   * Timer: Source/include/Timer.hpp and Source/src/Timer.cpp, one timer. A callback with its
--     parameters is one value; readings of the clock are arguments.
--   * TimersCache: Source/src/TimersCache.cpp, the timers in a multimap by their expiration behind
--     a lock. Identifiers, Reinsertion, Restart, Firing, Expiry and Views hold the proofs on its
--     loops, Effects what its callbacks do to the rest of the program, Invariant its well-formedness,
--     Refinement the view as a map from identifiers to timers, and Equivalence caches with one view.
--   * TimersThread: Source/src/TimersThreadMain.cpp, one round of the thread that serves the cache;
--     Round holds what it does to each timer, Ready what stays so between rounds, Counting how
--     often a round calls one callback, and Rounds what any number of them do.
--   * MessageQueue: Source/include/MessageQueue.hpp.
--   * Messages: Source/src/ModuleMessageMakers.cpp, and the fields of the generated message types
--     that the program sets and reads.
--   * Services: Source/src/MongoServicesCollection.cpp and Source/src/MongoDbEnvironment.cpp, the
--     reading of service records.
--   * EventsCache: Source/include/Event.hpp, Source/src/ModuleEventsCache.cpp and
--     Source/src/EventManager.cpp, the handlers of requests.
--   * Server: Source/src/ModuleServer.cpp. State is its record, Requests the sending half
--     (sendRequest, sendSubscribeRequest, send, startTimerToResend, sendToDestination), Receiving
--     the other (startReading, handleRequest, handleResponse). Link is the abstract queue with its
--     socket, Steps the server under any sequence of calls; Delivery, Transactions, Codes, Deadlock,
--     Destinations and Listening hold what follows, Calls the three calls of the user as wholes, and
--     Handlers the way from the registration of an event to its run. Started and Answers are what
--     many sends and many answers do to transactions and timers, Settled and Exchanges both
--     together.
--   * ModuleManager: Source/src/ModuleManager.cpp, Source/src/ModuleTimersManager.cpp and
--     Source/src/ModuleConnectionManager.cpp, the static instances through which the user's code
--     calls.
--   * Connection: Source/include/Connection.hpp, the TCP connection with its queue, its pending
--     writes and reads; Handlers has what follows when they complete. Writing and Steps hold what is
--     so of its writes, Wire is what passes between two ends; Framing, Transfer and Sending follow it
--     from the call that sends to the handler at the other end.
--   * Watchdog: Source/src/ModuleConnection.cpp, Source/src/ModuleWatchdogConnectionState.cpp and
--     the handlers of the watchdog's responses; Watcher is the thread that connects again
--     (WatchdogConnectionWatcher in Source/include/ModuleConnection.hpp), as a machine whose phases
--     are its waits and tests; Reconnect and Steps follow it over any sequence of steps, and
--     Responses has the handling of messages and the cycle of pings.
--   * Configuration: Source/src/ModuleConfiguration.cpp and
--     Source/src/ModuleConfigurationReader.cpp.
--   * Startup: Source/src/ModuleMain.cpp and Source/src/ModuleBase.cpp, the steps that start a
--     module and the shutdown handler; Main is the options and the constructor, and Registration the
--     start with the answer of the watchdog.
--   * Logging: Source/include/Logging.hpp, the level of the log and what is written.
--   * System: the server, the cache and the timers thread together, over any sequence of their
--     calls: Links, Sends, Calls, Answers, Callbacks and Round hold what each does to the link
--     between transactions and timers, Steps the sequences.
--   * ExampleModules: Tests/ExampleModuleTests, a module that sends coordinates and one that
--     subscribes to them.
--   * ModuleTests: Tests/ModuleServerTests (Fixture and Messaging) and
--     Tests/ModuleWatchdogMessageHandlersTests (Responses), what these programs set up and look at.
--   * Base and Containers: shared types and lemmas, and the standard containers the program uses.
--   * Examples: concrete data, and the theorems at them.
--
-- How they interact: the server registers a resend timer in the cache for each message that it
-- hands to the socket, under an identifier that it keeps with the transaction code; the response to
-- the message removes the timer. The timers thread runs the callbacks of expired timers while it
-- holds the lock of the cache, and the callback of a resend timer calls the server.
--
-- State is passed explicitly, and a call gives an Outcome: it returns, throws, or hangs, which is
-- to wait for a lock that its own caller holds, or to loop for ever. Time is a signed number of
-- nanoseconds. A lock that is free at the start of a call and released at its end is a Boolean; a
-- condition variable's wait is a look that says whether the thread sleeps on. Pointers are options.
-- `rand()` gives the values of a list. Parameters, since they are not in this repository:
-- protobuf's Any, serializing and parsing, the addresses of Boost.Asio, the database driver, the
-- JSON library, the allocator, and the callbacks and handlers of the user. Sockets are the
-- datagrams in flight and a log.
--
-- Fuel: the search for a timer's identifier is given one more step than there are timers, which is
-- enough for every cache with fewer than 2 ^ 32 - 1 timers. Nothing else needs fuel.
--
-- Not modelled: the signal handler, which nothing installs, and the start of the threads, whose
-- functions are steps here, and so what waits for their ends (joinAll and the destructor of
-- ModuleBase) and the task of the user; interleavings inside a call of the server, which takes the
-- locks of its queue and of its transactions one after the other and is one step here; the printing of the configuration and of the example modules, which is
-- output; blockingWriteMessageHeader, which nothing calls; and generated code.
pub mod Base
pub mod Containers
pub mod Identifier
pub mod ApplicationDetails
pub mod Timer
pub mod TimersCache
pub mod TimersThread
pub mod MessageQueue
pub mod Messages
pub mod Services
pub mod EventsCache
pub mod Server
pub mod ModuleManager
pub mod Connection
pub mod Watchdog
pub mod Configuration
pub mod Startup
pub mod Logging
pub mod System
pub mod ExampleModules
pub mod ModuleTests
pub mod Examples
