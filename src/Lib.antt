-- ===== src/Lib.antt =====
-- The core of movid, a daemon that runs a pipeline of vision modules under a web interface.
--
-- A module has numbered inputs and outputs, properties by name, perhaps a thread. An output owns a data
-- stream; an input holds a stream, which lists the modules that observe it. The factory makes modules of
-- registered classes, the pipeline keeps those in use in order, reads them from a file and writes them
-- to one. The web server's handlers change the pipeline on request, and the main loop polls it and logs
-- its errors.
--
-- The parts, and the code that each is about:
--   Base, with Tests, Lists, Bytes, Int, Arith and Dict: texts as lists of bytes, C integers, std::map as an
--     association list in key order.
--   Float: the C type double, an interface.
--   Utils: tokenize and inList of src/moUtils.cpp. Utils/Split and Utils/Words are their references.
--   Number: the formats %d and %u, and atoi.
--   Property: src/moProperty.cpp. A value is a sum; set returns the property and the callbacks to run.
--   World: the objects of src/moModule.h, src/moDataStream.h, src/moPipeline.h and the globals of
--     src/movid.cpp. Pointers are numbers, the heaps are functions from them. The virtual methods of
--     module classes are not run: each is an event, also what an override of start, stop, poll or of the
--     destructor does besides the base class.
--   DataStream: src/moDataStream.cpp.
--   Module: src/moModule.cpp: Ports for setInput and removeObservers, Properties for property() and
--     the errors, Lifecycle for start, stop, poll and the statistics. Links, Disconnect
--     and Contract are proofs.
--   Thread: src/moThread.cpp with needUpdate, notifyUpdate and stop, as interleaved steps.
--   Factory: src/moFactory.cpp, createId and the constructor of moModule. Names and Ids are
--     proofs.
--   Pipeline: src/moPipeline.cpp, with Parse for parse and Serialize for serializeCreation and
--     serializeConnections. Serialize/Lines is a proof.
--   Web: the handlers of src/movid.cpp, with Stream for web_pipeline_stream, File for
--     web_file and Json for the handlers that reply with a tree: Json/Classes makes modules to describe
--     them. Json/Reads and Json/Keeps are proofs.
--   Blob: src/moDataGenericContainer.cpp, and how modules read and write a blob's properties.
--   Tracker: src/modules/moAbstractBlobTrackerModule.cpp, with Greedy and Munkres for
--     src/modules/moGreedyBlobTrackerModule.cpp and src/modules/moMunkresBlobTrackerModule.cpp. A
--     blob stands in one list of a tracker at a time, so lists hold blobs and not pointers; the list
--     that was pushed is the value at the time of the push. Update states the contract of trackBlobs;
--     the other children are proofs: Fields, Ids, Sources and Steps on single steps, Total and Ready
--     on steps that return, Angles, Crash, Lost and Pushes on what the update does.
--   Tuio and Tuio2: src/modules/moTuioModule.cpp and src/modules/moTuio2Module.cpp. A bundle is the list
--     of its messages. Tuio/Frames and Tuio2/Sent are proofs.
--   Daemon: the error loop of main in src/movid.cpp.
--   Valid: what makes the daemon's objects well formed, and the operations that keep them so: Ports,
--     Create, Quiet and Calls (those that touch no connection), Remove, and Parse.
--   Web/Dispatch is the table of requests; Web/Session puts requests, rounds of the main loop,
--     pipeline files and the calls that module classes make of the base class in any order;
--     Answers, Requests, Search, Errors, Total, Disconnect and Remove are proofs.
--   Examples: concrete data, and the theorems applied to it.
--
-- A failed assert, undefined behaviour and a loop that does not end are none, or fault in parse. The
-- bounds of the loops: tokenize and inList take one round more than the text has characters, since each
-- consumes one; removeObservers one round more than the stream has observers, since each restart takes
-- one off; the error loop is given its rounds by the theorem about it; the loop of web_pipeline_set one
-- round more than the query has headers.
--
-- Not modelled: libraries in contrib (libevent is an interface; pincrement, mtdev_match and dist2
-- are parameters; OSC messages and cJSON trees are data; the others are not called here), the
-- module classes of src/modules but the blob trackers and TUIO, the log, OSC, the command line.
-- Locks are left out outside Thread: the handlers and the main loop run in one thread. In
-- Web/Session the requests for streams, dumps and slots are left out: loading a slot deletes
-- modules that streams still list as observers, and the module of a stream request holds a stream
-- of its own that lists no observer. The handlers are modelled with get_module_by_id, which only
-- reads the ids; search_module_by_id is the loop that creates an id that is not there. A callback
-- of a module class is an event, so that the error it may set is not seen by the tests that follow
-- in parse. The destructors of some classes delete the streams of their outputs; streams have no
-- end here.
pub mod Base
pub mod Float
pub mod Utils
pub mod Number
pub mod Property
pub mod World
pub mod DataStream
pub mod Module
pub mod Thread
pub mod Factory
pub mod Pipeline
pub mod Web
pub mod Blob
pub mod Tracker
pub mod Tuio
pub mod Tuio2
pub mod Daemon
pub mod Valid
pub mod Examples
