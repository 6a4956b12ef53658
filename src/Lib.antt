-- ===== src/Lib.antt =====
-- LogGrid searches log files for a regular expression on several machines. A master (NetServer) takes
-- search requests over HTTP, cuts the files into chunks and hands the chunks to workers (NetClient)
-- over TCP; a worker searches a chunk line by line and sends back what it found; the master counts the
-- results and appends them to a file for each search. NetCommon holds what both sides use: messages,
-- connections and queues.
--
-- This library models the program's own logic, with theorems about it. A C++ function is a function
-- here under its name in snake_case; the state it changes is a record that goes in and comes out;
-- bytes, offsets and counters are natural numbers, with `% 2 ^ w` where the source's integer wraps;
-- a call that throws gives `none` or `throws`, and a read outside of a buffer gives `out_of_bounds`.
--
-- The files, by the part of the program:
--   Base                 shared names, tests on numbers, lists, association lists for the hash maps
--   Net/Bytes            little-endian integers, as the machines hold them
--   Net/Message          NetCommon/include/net_message.hpp: a message as a stack of plain values
--   Net/Queue            NetCommon/include/net_tsqueue.hpp: the queue; Net/Queue/Consumer has threads that
--                        push to it and one that takes from it
--   Net/Connection       NetCommon/include/net_connection.hpp: the handlers that write messages and
--                        the bytes that are read; Net/Connection/Reader has its other state, opening and
--                        closing, and the handlers of the reads, Net/Connection/Delivery drives them
--   Net/Server           NetCommon/include/net_server.hpp: MessageClient and MessageAllClients;
--                        Net/Server/Accept has Start, Stop and the accepting of connections,
--                        Net/Server/Update the loop that hands out messages
--   Net/Client           NetCommon/include/net_client.hpp: Connect, Disconnect and Send
--   Net/Print            the printing operators of a message
--   Protocol             NetCommon/include/LogSearchCommon.hpp: kinds of messages, payloads
--   Protocol/Codec       the payload struct as its bytes
--   Protocol/Batch       WorkerClient::SerializeBatch, SendTaskDone (NetClient/src/WorkerClient.cpp)
--                        and MasterServer::DeserializeBatch (NetServer/src/MasterServer.cpp)
--   Worker/Stream        the calls of std::ifstream that the worker makes
--   Worker/Lines         lines of a text, and those that begin within a range of bytes
--   Worker/FileProcessor NetClient/src/FileProcessor.hpp: the search of one chunk
--   Worker/Client        NetClient/src/WorkerClient.cpp: the handlers of a worker
--   Worker/ThreadPool    NetClient/src/ThreadPool.hpp: threads and their queue, as steps
--   Master/Chunks        CreateChunkTask and EnqueueFileChunks (NetServer/src/MasterServer.cpp)
--   Master/State         the state of NetServer/src/MasterServer.hpp, AllocateSearchId,
--                        AddPendingTasks, GetStatus
--   Master/Dispatch      DispatchNextTask and AssignIdleWorkers
--   Master/Results       AggregateTaskResult, WriteResults and OpenResultFile
--   Master/Handlers      OnMessage and OnClientDisconnect
--   Master/Scan          ProcessSingleFile and ScanDirectoryRecursively
--   Master/Start         StartSearch, BuildSession, CreateSessionFilePath, MakeRelative
--   Master/Promises      what the comments of NetServer/src/MasterServer.hpp promise of the operations of
--                        the master
--   Master/Steps         the locked sections of the master in any order: Master/Steps/Invariant has their
--                        invariant, Master/Steps/Progress and Master/Steps/Advance what a search goes
--                        through, Master/Steps/Final what is final
--   Master/Served        whole calls of OnMessage, OnClientDisconnect and StartSearch, one after the
--                        other, from the start of the master on: what a call changes is in
--                        Master/Served/Answered and Master/Served/Begun; the counts of a search in
--                        Master/Served/Counts, Master/Served/Opened, Master/Served/Kept and
--                        Master/Served/Status; the result files in Master/Served/Unwritten,
--                        Master/Served/Texts, Master/Served/Filed and Master/Served/Appended; the
--                        queue of idle workers in Master/Served/Working, Master/Served/Handled and
--                        Master/Served/Busy, on Master/Dispatch/Roster and
--                        Master/Dispatch/Waking; the load of the workers in Master/Served/Capacity,
--                        Master/Served/Load and Master/Served/Bounded, on Master/Dispatch/Capacity
--   Http                 NetServer/src/SearchController.cpp: the two routes, and std::stoull
--   Http/Api             NetServer/src/HttpApi.cpp: routes, start and stop
--   Programs             NetServer/src/main.cpp and NetClient/src/main.cpp: the two main loops;
--                        Programs/Hello and Programs/Jobs go through all layers, from one to the other
--   Master/Accounting    the invariant of the master; Master/Books relates the handlers to it
--   Pipeline             master and worker together: a file cut, searched and put together again
--   Tests                the properties on concrete inputs
--
-- The parts meet at four places. The tasks of Master/Chunks are what Worker/FileProcessor searches
-- (Pipeline). The message of Protocol/Batch is what Master/Handlers takes in (Master/Books/Completion).
-- Master/Handlers, Master/Dispatch and Master/State work on the one state of the master, which the
-- source guards with one mutex: each function that runs under the lock is one step, and a handler is
-- the sequence of its steps. The threads of the HTTP server and the thread of the main loop take such
-- steps in any order: the relation Step of Master/Steps has one constructor for each, on the state of
-- the master and on what the calls under way hold in their variables. Master/Served takes the calls
-- whole, one after the other: what is proved of it is for calls that do not overlap. Tests/Race has a run
-- of steps in which two calls of AssignIdleWorkers do overlap, and a worker gets a task too many.
--
-- Programs/Hello and Programs/Jobs go the way of a message: the handlers that write it, the bytes, the
-- handlers that read it, the queue or the callback, and the handler of the other side.
--
-- Fuel. `search_loop` gets one round more than the file has bytes; each round takes a byte at least.
-- `chunk_loop` gets one round for each chunk and one to see the end. `assign_loop` gets one round for
-- each idle worker and one more; each round takes a worker off the queue and a worker queues up again
-- only once the tasks are gone. `scan_directory_recursively` gets the depth to which directories are
-- nested, `read_messages` and `feed` one round for each message, `update_loop` one round for each message
-- in the queue. The fuel of `wait_loop` is a parameter; more than its 10 attempts is enough.
--
-- Parameters, since their code is elsewhere: std::regex (a keyword compiles to a pattern or not, and a
-- pattern matches in a line or not), the file system (the bytes of a file that opens, sizes, kinds and
-- listings, canonical and normal forms of paths, whether a result file opens), the clock (the name of a
-- result file is a parameter for each id, and where it matters no two searches have the same), the JSON
-- library, httplib's server, what other threads change between two looks of a main loop, and the order
-- in which std::unordered_map is walked. Little-endian machines are taken for granted, as the source
-- does.
--
-- Not modelled: the libraries under external (asio, httplib, nlohmann json), the messages printed to
-- the console but for the text of a message, the directories that create_directories leaves on the disk
-- (whether it succeeds is a parameter), the undefined overflow of the `int` that counts the chunks done
-- (its 32-bit pattern is kept), and the tests. A call of asio is the result that
-- its handler gets: how sockets and the context do their work is left out.
pub mod Base
pub mod Net
pub mod Protocol
pub mod Worker
pub mod Master
pub mod Http
pub mod Pipeline
pub mod Programs
pub mod Tests
