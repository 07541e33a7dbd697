-- ===== src/Lib.antt =====
-- tvr keeps live television channels and serves each to many viewers. This library models the core of it: the framing of
-- MPEG-TS, the choice among upstreams, the session that a channel has while somebody watches it, the manager of the
-- sessions, and the parsers and helpers around them.
--
-- The parts and the code that they are about:
--   Mpegts        internal/core/mpegts/frame.go: `PID`, `HasPUSI`, `HasRandomAccess` (Header), `ExtractFramed` and `Framed` (Frame).
--   Upstream      internal/core/upstream: the policies and `PickIndex` (Policy), `Source` with `Normalize` and the
--                 choice of where to start (Source), links behind a proxy (Resolve).
--   Transcode     internal/core/transcode/profile.go: `DefaultProfile` and `Normalize`.
--   Channeltxt    internal/core/channeltxt/parse.go: `Parse`.
--   Utils         internal/utils: slice.go (Slice) and natsort.go (Natsort).
--   Epg           internal/core/epg: the program guide.
--     Documents   a guide as data, `PublicTvgID`, `mergeDocument`, `preferText`.
--     Service     the struct `Service` and its files; Order has the order of channels and `indexFromDoc`.
--     Manifest    `eligibleSource`.
--     Queue       admission, the queues, `takePending`, `takeCleanupReady`, `deferCleanup`.
--     Requests    what other goroutines ask of the service while the worker is at work.
--     Refresh     `processSource`, with `writeSourceGenerationFiles` and `writeSourceManifest`.
--     Relays      `processRelay` and `writeRelayCache`.
--     Cleanup     `processCleanup`.
--   M3u           internal/core/m3u/parser.go: attributes and entries (M3u), and `Parse` (Parsing).
--   Httpapi       internal/httpapi/relays.go and server.go: `handleRelayPlaylist`, `sanitizePlaylistText`, `escapeAttr`.
--   Workflows     internal/core/workflows/workflows.go, with `MappingKey` and `HasMapping` of internal/core/store/store.go.
--   Stream        internal/core/stream: session.go, copy.go, pump.go, hls.go and manager.go.
--     Session     the struct `session` as a record, and the errors of the package.
--     Packets     tables and keyframes in the data (`observeFramed`, `startupPacketsLocked`, `keyframeSuffix`).
--     Viewers     `addViewer`, `removeViewer`, `broadcast`, `broadcastFramed`, `setState`.
--     Ready       `markReady`, `failReady`, the ready watch, `waitReady`, `stop`, `status`, `finishStatus`.
--     Walk        `applyCurrentUpstreamLocked`, `advanceLocked`, `attemptBudget`, `beginPump`, `handlePumpError`.
--     Run         the loop of `run`, a round at a time.
--     Copy        `copyMPEGTS`, a read at a time.
--     Calls       the calls that goroutines make on a session, each as one step.
--     Hls         the set of seen segments (Seen) and the playlist (Playlist).
--     Manager     `Manager` with its operations; Steps has what reaches it, each as one step.
--   Base          Go's strings, maps, slices and integers, as far as the parts share them.
--
-- How they interact: the manager starts a session on a normal source and hands its viewers out; the session's loop
-- runs a pump on the upstream that the walk has reached; the pump copies a body, frames it, and broadcasts to
-- the viewers; readiness tells the subscribers whether data came, and the end of a session reports to the manager. A workflow takes
-- an admission of the guide's worker, changes the database, and queues derived work; the worker takes it off the queues.
--
-- How the code is modelled. What is done under a mutex is one function from the state to the state, so a sequence of calls is
-- a sequence of steps. Theorems about any list of steps cover any interleaving of operations that are one such section. An operation
-- of several sections takes what others do between them as an argument where a theorem turns on it (`Subscribe` on a session that
-- is there, `processSource`, `withAdmission`); `broadcastFramed`, `stop`, and the stop of a retired session behind the manager's
-- section are one step. Sessions live on
-- a heap of the manager, and a pointer is an index into it. A channel that is closed once and an atomic flag are fields;
-- a context is a number in the list of those cancelled. A map is a list of keys and values, and a range over it goes in list
-- order. Numbers that are never negative are natural numbers and the others are integers; none of the counters is near 2^63.
-- Text is a list of bytes, with the spaces and the letters of ASCII. Random choice, the host of a URL, the time, the
-- outcome of a select, what a body returns and what other goroutines do meanwhile are arguments.
--
-- Bounds and fuel. `run`, `observe_loop`, `burst_loop` and `keyframe_loop` take the length of their data as fuel, and each pass
-- takes at least a byte off. `natural_loop` takes the sum of two lengths, and each pass takes a code
-- point off both texts. `decimal` takes the twenty digits of an int64. `attr_loop` takes the length of the text,
-- and each pass takes an equals sign off it.
--
-- Not modelled: timers and waiting, HTTP and its readers, the processes and arguments of ffmpeg, logging, the database, XML
-- and JSON, the loop of the guide's worker and its start, the guide queries, the rest of the HTTP
-- interface, configuration and start-up.
pub mod Base
pub mod Utils
pub mod Epg
pub mod M3u
pub mod Httpapi
pub mod Workflows
pub mod Mpegts
pub mod Upstream
pub mod Channeltxt
pub mod Transcode
pub mod Stream
