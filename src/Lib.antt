-- ===== src/Lib.antt =====
-- Verification of the audio core of sync-bluetooth-devices (Tandem Audio).
--
-- A host streams 16-bit PCM in datagrams over UDP to several clients, which play it together. Each
-- datagram is one packet (core/src/PacketSerializer.cpp). A client's receiving thread parses the
-- datagrams, selects one session and stream, counts losses and stores the packets in the jitter
-- buffer (core/src/JitterBuffer.cpp), from which its audio callback reads frames. Clients measure
-- the offset of the host's clock by exchanges of four timestamps (core/src/ClockSync.cpp), and turn
-- frame numbers into times and back with a playback clock (core/src/PlaybackClock.cpp). The host
-- keeps a room of members and one pending playback action (core/src/Room.cpp).
--
-- Files, by the code they model:
--   Common/     the names, tests, lists, integers, results and doubles that the parts share
--   Packet/     core/include/AudioPacket.hpp, core/src/PacketSerializer.cpp: `validate`,
--               `serialize`, `deserialize`; Packet/Words has the byte writers and the `Reader`
--   Playback/   core/src/PlaybackClock.cpp: `frameToTimestamp`, `timestampToFrame`
--   Sync/       core/src/ClockSync.cpp: `ClockSyncSerializer` (Sync/Wire has its byte functions,
--               which work at an offset of an array) and `ClockSyncMath::estimate`
--   Room/       core/src/Room.cpp: every operation under the room's mutex is one step
--   Jitter/     core/src/JitterBuffer.cpp: `push`, `readFrames` and the queries
--   Latency/    core/src/OutputLatency.cpp
--   Impairment/ desktop/src/NetworkImpairment.cpp: `submit` and `drain`
--   Transport/  desktop/src/ClockSyncTransport.cpp: the server's answer, the client's acceptance
--               test and its choice among the samples
--   Control/    desktop/src/ControlChannel.cpp: device IDs, the playback commands, and in
--               Control/Connection every line of a connection (`responseFor`, `serveClient`), where
--               the calls of the room for one line are one step; Control lets the room change between
--               the snapshot and `scheduleAction` of a playback command
--   Cli/        desktop/src/main.cpp: `parseCommandLine`
--   Session/    desktop/src/main.cpp: the segments of `runHost` and the commands between them, one step
--               for each call of the room, with control threads in between (Session/Interleaved)
--   Drift/      core/src/DriftCorrection.cpp
--   Receiver/   `PacketReceiverWorker` of desktop/src/DesktopAudioClient.cpp
--   Player/     desktop/src/DesktopAudioPlayer.cpp: Player/Ring has the ring between the decoding thread
--               (`prefetch`) and the audio callback, Player/Timeline what is reported of the position
--   Host/       desktop/src/DesktopNetworkHost.cpp: `streamFile`
--   Runs/       the theorems at concrete inputs
--
-- How the code is modelled. Unsigned integers are natural numbers with their wrap-around written
-- out where the code can reach it; what the C++ types guarantee of a field is a hypothesis (`Fits`).
-- Signed times are integers, with the overflow checks that the code makes; where the code makes
-- none, an overflow is undefined behaviour and not modelled. Bytes and texts are lists of numbers.
-- Exceptions are values of `Result`, with one constructor for each message. A `|` of disjoint bits
-- is a sum. `Reader` is the suffix of the datagram that is not read yet. The two calls joined by
-- `|` in `readU16` and its like are taken in the order of the text, which C++ leaves open. An
-- `enum class` that comes off the wire is its number. `std::map` is a list in the order of its keys
-- and `std::unordered_map` an association list. Each call under a mutex is one step; readings of
-- the clock, random draws and the outcome of `try_to_lock` are arguments. A `double` is a value of
-- an abstract type (`Common.Floats`) of which only monotony of comparison and of adding literals is
-- assumed. The `long double` of `estimate` is exact, as it is with a significand of 64 bits (x86-64
-- outside MSVC); with 53 bits the estimate of timestamps above 2^53 differs. No definition needs
-- fuel: every loop is a structural recursion.
--
-- The player's two threads take their steps in any order (`run`), each from one access of a shared
-- atomic to the next, but for the end of the audio callback, whose stores of the read frame and of the
-- submitted ones, look at the decoder's flag and store of its own are one step; what the decoder, the device and the file system answer is an argument, and so
-- are the answers that a round of the host's streaming loop gets.
--
-- Not modelled: sockets, the creation of threads and audio devices, the text of the control channel's
-- longer answers, the client's resampling callback, discovery, `runClient`, `runRoomClient` and
-- `runControl`, and the applications in other languages: most of these is I/O.
pub mod Cli
pub mod Common
pub mod Control
pub mod Drift
pub mod Host
pub mod Impairment
pub mod Jitter
pub mod Latency
pub mod Packet
pub mod Playback
pub mod Player
pub mod Receiver
pub mod Room
pub mod Runs
pub mod Session
pub mod Sync
pub mod Transport
