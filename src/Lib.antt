-- ===== src/Lib.antt =====
-- A model of mToolkit, a C++ toolkit of timers, containers, queues and utilities, with the theorems
-- that make its parts correct.
--
-- The parts that are modelled, and the files that model them:
--
--   toolkit/source/utilities/math.cpp: powers of two and parity. Utilities/Math.antt has one function
--   for each of Math's functions; Math/Bounds and Math/Powers are about them. The byte ring takes its
--   size from GetRoundupPowerOfTwo.
--
--   toolkit/source/utilities/string.cpp: strings as lists of bytes. Utilities/Strings.antt has the
--   functions of the class String but PrintHex; Strings/Hex, Trims, Chunks, Lines (with Breaks) and
--   Splits (with Searches and Keeps) are about them.
--
--   toolkit/source/utilities/serialize.h: values as bytes. Utilities/Serialize.antt has the two classes,
--   on a machine that puts the low byte first; Serialize/Laws, with Widths, is the round trip.
--
--   toolkit/source/utilities/net.cpp: ranges of ports and addresses. Utilities/Net.antt has the
--   functions of Net that read and write addresses, with the C library as a parameter; Net/Ranges,
--   Dotted and Hosts are about them.
--
--   toolkit/source/utilities/filesystem.cpp: files and directories. Utilities/Filesystem.antt has
--   ReadFile and Content, on what a file holds, and Exists, CreateDirectory and CreateDirectories, with
--   mkdir and access as parameters; Filesystem/Reading is about lines, Directories, with
--   Outcomes, about paths. Filesystem/Removal.antt has Remove with the calls that it makes of the
--   system; Removal/Below, with Traces, is about them.
--
--   toolkit/source/module/plug_base_factory.cpp: plugs. Module.antt has the registration of factory
--   functions and LoadDriver, with the dynamic loader as a parameter; Module/Loading is about both.
--
--   toolkit/source/efficient/annularcache.cpp: a byte ring. Efficient/AnnularCache.antt has the class
--   as a record, with create, push and pop; AnnularCache/Spec is the queue of bytes that the ring
--   stands for, AnnularCache/Laws relates the two, and Creation is about a new ring.
--
--   toolkit/source/efficient/twlinklist.cpp, instwlinklist.h, queue.h, stack.h: rings of linked nodes.
--   Efficient/TwLinkList.antt has the heap and the functions on links; TwLinkList/Ring says what a ring
--   is, Links and Changes what writes make of one, Values what data it holds. InstwLinkList.antt,
--   Queue.antt and Stack.antt have the classes, each with its theorems in child modules.
--
--   toolkit/source/lock_container/lock_list.h, lock_queue.h, lock_map.h: LockContainer/LockList.antt,
--   LockQueue.antt and LockMap.antt have each operation as one step under the lock; Calls and Steps are
--   about any order of calls on a queue, LockMap/Laws and Entries about a map.
--
--   toolkit/source/message_queue: MessageQueue.antt has messages, the queue ordered by time, builders
--   and the looper, on LockList; the thread of a looper tests, waits and runs a message in steps of its own,
--   between which calls come. MessageQueue/Order is about the queue, Looping about a looper.
--
--   toolkit/source/timer/node.cpp, event.h: one timer. Timer/Node.antt has TimerNode and its methods,
--   each of which returns what the event was told beside the node; Node/Turns follows one node.
--
--   toolkit/source/timer/manager.cpp, manager.h: the timing wheel. Timer/Wheel.antt has the manager's
--   state, AddNode and Cascade and the head of Executes; Timer/Manager.antt has the calls Start, Stop,
--   Destroy, Pause, Resume, Update and the rest of Executes. Wheel/Due says what it means that a node
--   stands in the right list, Wheel/Moves to Wheel/Turn follow nodes through the lists. In
--   Timer/Manager, Executes, Calls, Starts, Ticks, Clock and Reach are about one tick, the calls, many
--   ticks, the reading of the clock and all sequences of calls.
--
--   toolkit/source/poll/thread_poll.cpp, thread_poll.h: the thread pool. ThreadPool.antt has the
--   members of ThreadPool with the place of each worker, and the steps of the workers, of Commit and of
--   Release in any order, an access to shared state at a time. ThreadPool/Counts and Complete follow the
--   tasks, Critical and Exclusive the section under the lock, Wakes the sleepers, with Wakes/Measure,
--   Progress and Rest on coming to rest; Hangs is about the end of a pool, and Family has sums over the
--   workers.
--
--   toolkit/source/actor/handle.cpp, queue.h, active.cpp, event.h: actors. Actor.antt has the queue of
--   an actor and the operations of Handle; Actor/Publishing compares them with a board of listeners,
--   with Sets and Entries on the sets of subscribers and their map. Actor/Stopping.antt has the thread
--   of an actor and Stop as a step relation; Stopping/Ending and Stopping/Joining are about its end.
--
--   toolkit_enckit/source/http_client/http_client.cpp, http_client.h: the client of HTTP.
--   HttpClient/State has the state of HTTPClient, Setters its setters, Options the options that SetProxy,
--   SetSession and SetShareDNSCache set, Transfer the requests and the callbacks; what curl answers and
--   calls back is a parameter of each request. Events, Received, Launch and Refusal are about one request, Asked,
--   SentParts and Sent about its options, and Calls, History and Refines about sequences of operations.
--
--   toolkit_enckit/source/speaker_pulseaudio: players of audio files. SpeakerPulseaudio/AudioStream.antt
--   has AudioStream, whose methods record what they ask of the libraries; AudioStream/Protocol says what
--   may be asked, Requests and Callbacks are about one write callback, Reach about any sequence of them.
--   SpeakerPulseaudio/Manager.antt has PulseAudioManager on LockMap, Manager/Tasks what Play keeps, with
--   LockContainer/LockMap/Entries on RemoveIf.
--
--   toolkit_enckit/source/speaker_gst: SpeakerGst.antt has GstAudio and GstAudioManager, SpeakerGst/Listening
--   what a turn of the listener leaves.
--
-- The helpers stand in Base.antt: tests on numbers, lists, 32-bit and 64-bit words, masks, and
-- association lists for std::map. Tests.antt holds concrete runs.
--
-- Numbers: a w-bit integer is a natural number below 2^w, with its wraps written out; a signed one is
-- its bit pattern. What C++ leaves undefined (a shift by the width, a division by 0, the read of an
-- erased map entry) is a value of its own, none or an error. The theorems on timers keep times below 2^62 ms, so that no sum wraps.
--
-- State: objects that the source shares by pointers stand in a table and are named by their number
-- there; a method returns the new state. AddNode's exception ends a call with the state that it left.
-- Loops are recursion on lists, on the number of ticks of Update, or on the clock readings that
-- DriverThread takes. Loops around a ring take their number of turns, and one more than there are
-- nodes is enough; those of SplitString, SplitLines, Split and
-- ReadFile take one more than the characters; Remove takes one more than the longest
-- path, a write callback one more than the bytes to write. The
-- steps of a thread pool are a relation, without fuel.
--
-- Not modelled: the threads of the timer manager (a call of another thread comes between two ticks, so
-- the data races on its maps are out of scope) and its destructor, the system calls, and the wrappers
-- of third-party libraries in toolkit_enckit other than the HTTP client and the speakers.
mod Base
pub mod Utilities
pub mod Efficient
pub mod Timer
pub mod LockContainer
pub mod MessageQueue
pub mod ThreadPool
pub mod Actor
pub mod Module
pub mod SpeakerPulseaudio
pub mod SpeakerGst
pub mod HttpClient
pub mod Tests
