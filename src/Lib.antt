-- ===== src/Lib.antt =====
-- Verification of shm-cpp: messages between two processes over rings of shared memory.
--
-- The program. Each connection has two rings, one for each direction (include/shm_ipc/ringbuf.hpp):
-- a data area whose size is a power of two, and two positions of 64 bits that only grow. One process
-- writes and moves `write_pos`, the other reads and moves `read_pos`. A batch writer stages several
-- writes and publishes them with one store. A channel (include/shm_ipc/ring_channel.hpp) joins the two
-- rings and wakes the peer through an eventfd. On the byte stream of a ring, messages travel as frames
-- of a length, a number and a payload (include/shm_ipc/codec.hpp), and a frame reader
-- (include/shm_ipc/frame_reader.hpp) takes them out, in place where a frame lies in one piece.
--
-- The files.
-- - Common: words of 32 and 64 bits, lists with the library's names over the native naturals, tests,
--   and masks.
-- - Ring: `RingBuf<Capacity>`. Ring/Capacity is about the mask and the wrapping of positions, Ring/Copy
--   about the two-part copies, Ring/Window about the bytes between two positions. Ring/Queue is the
--   abstract FIFO, and Ring/Write, Ring/Read and Ring/Refine compare the methods with it.
-- - Batch: `detail::BatchWriter<Capacity>`. Batch/Staged says what is staged and what a reader sees
--   meanwhile; Batch/Sequence compares a batch with single writes.
-- - Spsc: `TryWrite` and `TryRead` of two processes, interleaved. Spsc/Invariant, Writing, Reading and
--   Reachable are its invariant, Spsc/Safety what follows, and Spsc/Solo connects it with the calls.
-- - Channel: `RingChannel` and `detail::ChannelBatchWriter` (Channel/Writer, Channel/Staged).
--   Channel/Handshake has `CreateRingChannel`; Channel/Exchange says what it leaves open, Channel/Ends
--   what its steps have done, Channel/Side what a side that returns has, and Channel/Crossed how the two
--   sides fit together.
-- - Codec: frames and their senders. Codec/Wire is about the bytes of a frame, Codec/Finish, Send,
--   Message and Batched about `SendFrame`, `Send` and `SendFrameBatch`.
-- - Reader: `FrameReader`. Reader/Frames says what unread bytes mean, Reader/Parts, Ready, Take and
--   Receive compare `TryRecv` with it. Reader/Mailbox is the abstract mailbox, and Reader/Link and
--   Delivery compare a sender and a receiver on one ring with it.
-- - Typed: the receive loop that the typed codecs (include/shm_ipc/pod_codec.hpp and proto_codec.hpp)
--   have in common. Typed/Ends is about its end, Typed/Pick about what it delivers.
-- - Pod: `PodCodec<T>`. Pod/Payload is about tagged objects, Pod/Buffer about `EncodeTo` and `Decode`,
--   Pod/Transfer about `Send` and `Recv`.
-- - Proto: `ProtoCodec<T>` (include/shm_ipc/proto_codec.hpp), with protobuf's name, serialization and parser
--   as parameters. Proto/Payload is about names and bounds, Proto/Carrying about what a payload carries,
--   Proto/Transfer about `Send` and `Recv`.
-- - Loop: `EventLoop` (include/shm_ipc/event_loop.hpp). Loop/Dead is about tombstones during a round,
--   Loop/Round about the calls of a round and what it leaves.
-- - Fds: file descriptors and their passing (include/shm_ipc/common.hpp), as actions on a process that keeps
--   the lists of what it was given and what it let go of. The answers of the system calls are arguments.
--   What others see of a process, a mapping with its descriptor and size among them, is its log. Fds/Kept
--   and Fds/Passing say who closes what, Fds/Effects what the helpers have done where they do not throw, and
--   Fds/Uri is about `UriToPath`.
-- - Connection: `ShmConnection` (include/shm_ipc/shm_connection.hpp), with any codec. Connection/Chunks is
--   about the chunks of `WriteRaw`, Connection/Command about `SendCmd` and the keepalive answer, whose fuel
--   is one more than the buffer's limit, since each turn makes the buffer larger. Connection/Receive has
--   `DrainRing` and Connection/Drain is about it: its fuel is one more than the bytes in the ring, since
--   each turn that is not the last takes some.
-- - SimplePod: `SimplePodCodec` (include/shm_ipc/simple_pod_codec.hpp), a codec for a connection.
--   SimplePod/Registering is about `RegisterPod`, SimplePod/Wire about `Encode` and `Decode`,
--   SimplePod/Sending about `SendCmd` and SimplePod/Deliver about `DrainRing` with this codec.
-- - Client: `ShmClient` (include/shm_ipc/shm_client.hpp). Client/Send compares `SendMessage` with `WriteRaw`,
--   Client/Receive is about `ReadMessage`, which is given what happens while it waits.
-- - Server: `ShmServer` (include/shm_ipc/shm_server.hpp) as two threads, the event loop with its handlers
--   and the thread that shakes hands. Server/Inv has the invariant, Server/Thread, Server/Finish,
--   Server/Close and Server/Stop keep it, and Server/Reachable puts the steps together.
--   Server/Handshake is about the end of the thread, which lets `Stop` be one step.
-- - Examples: concrete rings, channels and calls.
--
-- Correspondence. Functions have the C++ name in snake case. The capacity is the argument `cap`;
-- `IsCapacity` is the list of `static_assert`s. A method takes the memory or the channel that it works
-- on and returns it changed beside its result. Out parameters are results. A pointer into the ring is
-- an offset of the data area; an argument that may be null is an `Option`. Words keep their wrapping:
-- `add64`, `sub64`, `add32` and `sub32` are modulo 2 ^ 64 and 2 ^ 32. The multi-byte fields are little
-- endian, as on the machines that the code is built for. A destructor is a call where the object goes
-- out of scope. Bytes are natural numbers, so nothing depends on their range but the header fields,
-- which are taken modulo 256 when they are written.
--
-- Abstraction. `Holds cap m r q` says that the memory `m` holds the unread bytes `q`, and that `r` bytes
-- were read before, counted without wrapping. It is what the methods keep, and `q` is the state of the
-- abstract queue.
--
-- The steps of Spsc are the accesses to shared memory between two atomic operations. While the writer
-- copies, the bytes that it copies to may hold anything. The theorems quantify over all sequences of
-- steps; that acquire and release make a real execution look like such a sequence is taken for granted.
--
-- Not modelled: timer descriptors and their clock, the setters and the verify timer of the connection,
-- the asynchronous client (include/shm_ipc/shm_async_client.hpp), `SendTo` and `Broadcast` of the server,
-- the sealing of a memfd, which is best effort, the facade under include/comm with src/server.cpp and
-- src/client.cpp, and the demo programs. The protobuf library is vendored. The eventfd is a count of
-- wake-ups. Loops on EINTR in `NotifyPeer` are one write.
--
-- Fuel. The receive loop of the typed codecs takes a bound on its turns. A turn that skips a frame takes
-- at least eight bytes out of the ring, so one turn more than there are bytes is enough.
pub mod Common
pub mod Ring
pub mod Batch
pub mod Spsc
pub mod Channel
pub mod Codec
pub mod Reader
pub mod Typed
pub mod Pod
pub mod Loop
pub mod Connection
pub mod Server
pub mod Client
pub mod SimplePod
pub mod Fds
pub mod Proto
pub mod Examples
