-- ===== src/Lib.antt =====
-- rtimv shows images from astronomical cameras while they are taken. An image source reads pixels
-- from a FITS file, a directory of FITS files, a shared memory image or a network stream; the image
-- object scales and colours them; a window shows them, or a server sends them to clients. Plugins
-- share data by a dictionary of blobs.
--
-- The files model these parts:
--   Box: `normalizeColorBox` and `normalizeStatsBox` of src/common/rtimvBase.cpp. Corners are
--     integers and image sizes numbers.
--   Image: the update codes of src/common/rtimvImage.hpp. Image/Frames is the choice of the next
--     frame in src/common/images/fitsImage.cpp and fitsDirectory.cpp, with the wrap-around of
--     `uint32_t` and `int32_t` written out. Image/Fits is the state of `fitsImage` and its
--     operations, one function for each; Image/Directory is the same for `fitsDirectory`,
--     Image/Shmim for `shmimImage` and Image/Mzmq for `update` and `detach` of `mzmqImage`. These
--     two share the counters of Image/Counters and the rate of Image/Rate, whose floating-point
--     numbers are a type with operations that is a parameter.
--   Dictionary: `rtimvDictBlob` of src/librtimv/rtimvDictionary.cpp, over the heap of
--     Dictionary/Memory, in which a read or write out of bounds, of storage that is free, and a
--     second `free` are faults.
--   Stats: the global statistics of src/common/rtimvBase.cpp, from `mtxL_globalStats` to
--     `mtxUL_checkGlobalStats`, over operations on float and double that are a parameter.
--   Pixels: `rawPixel` of src/common/rtimvBase.cpp with the functions that it chooses from, and the
--     handler GetPixel of src/server/rtimvServer.cpp; float is a parameter.
--   Picture: the picture of src/common/rtimvBase.cpp. Picture/State is its state, and Picture.antt holds
--     the loops that look for the range of its pixels. Picture/Change is the size and the filters,
--     Picture/Loading the pixels and saturation flags, Picture/Update `mtxUL_changeImdata`,
--     Picture/Coloring the colours, Picture/StatsBoxes the statistics box and Picture/Modes the colour
--     modes, with sequences of operations. `none` is the use of a null pointer. Lemmas stand in
--     Picture/Scans, Boxes, Agreement, Painting, Soundness, Total, Runs, Saturation, Loads, Filtering
--     and Scales. Floats and filters are parameters.
--   Cube: the timers of src/common/rtimvBase.cpp that read images and step through a cube, with the
--     settings that call `setCurrImageTimeout`; lemmas stand in Cube/Timers. Cube/Updates is
--     `updateImages`, with runs of it in Cube/Updates/Runs. Float is a parameter.
--   Mirror: the picture of the server at a client. Mirror/Message is `populateImageReply` of
--     src/server/rtimvServerThread.cpp, Mirror/Codes the codes of its enumerations in
--     src/server/rtimvColorGRPC.hpp and rtimvFilterGRPC.hpp, and Mirror/Reception what `ImageReceived`
--     of src/server/rtimvClientBase.cpp takes over, with the values of Client/Scale that it sends. Lemmas
--     stand in Mirror/Agreement and Mirror/Statistics.
--   Handlers: ColorBox, StatsBox, SetColormode and SetColorstretch of src/server/rtimvServer.cpp on the
--     state of Picture, with lemmas in Handlers/Boxes.
--   Router: `rtimvCommandRouter` of src/librtimv/rtimvCommandInterface.cpp, over plugins that are a
--     parameter.
--   Server: the queue of pending image requests of src/server/rtimvServerThread.cpp. Steps are the
--     calls of the server and the callbacks of gRPC, in any order.
--   Client: the client of src/server/rtimvClientBase.cpp. Client/Connection is the handshake and the
--     ping, Client/Window the image requests in flight, Client/Statistics the global statistics that
--     it asks for, and Client/Events what happens, in any order: timer, callbacks of gRPC, queued
--     slots and calls of the user. Client/Scale is the minimum of the colour scale that the user sets,
--     with a state of its own. What the client calls, emits and queues is a list of effects. Lemmas stand
--     in Client/Handshake, Client/Credits, Client/Intents, Client/Believed, Client/Newest,
--     Client/Callbacks and Client/Scale.
--   Registry: the table of clients of src/server/rtimvServer.cpp, with the lock that its loop gives up
--     between the choice of a client and its removal. Lemmas stand in Registry/Threads,
--     Registry/Removal, Registry/Calls, Registry/Eviction, Registry/Scans and Registry/Sweeps.
--   Common: the names, tests, lists and integers that the others share.
--
-- What cfitsio, ImageStreamIO, the file system and gRPC answer is an argument of each operation that
-- asks. Locks are taken to make each operation atomic; what other threads do between the steps of a
-- service is an argument of the service. No recursion needs fuel: each is on a list or a count.
--
-- The counters of 64 bits of a client wrap; theorems on its requests ask for room up to the wrap. A
-- run of a client is on its list of events.
--
-- Not modelled: rounding and the inside of the filters, the tables of the colour bars, the JPEG data
-- and most settings of the client, the handlers of the server that only pass a value on, the widgets of
-- Qt, the encoding of messages by protobuf, logging, and the allocation failures that the code does
-- not handle.
pub mod Box
pub mod Client
pub mod Common
pub mod Cube
pub mod Dictionary
pub mod Handlers
pub mod Image
pub mod Mirror
pub mod Picture
pub mod Pixels
pub mod Registry
pub mod Router
pub mod Server
pub mod Stats
