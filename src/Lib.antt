-- ===== src/Lib.antt =====
-- mutty: a reactor for TCP, HTTP requests over it, and a pooled allocator for its buffers.
--
-- An EventLoop polls descriptors through an EPollPoller, hands their events to Channels, and runs the
-- functors that other threads queue. A TcpConnection keeps an input and an output buffer over its
-- channel; a Connector makes connections of the client's side; an HttpContext parses requests from the
-- input buffer. Buffers are regions of chunks that arenas give out by size classes.
--
-- The files, and what each models:
--   Common, with Tests, Arrays and Counting: Boolean tests on numbers, lists as arrays, sums over them.
--   Memory/Powers: lemmas on powers of two.
--   Memory/MathUtil: buffer/MathUtil.h, on 32-bit ints.
--   Memory/SizeClasses: buffer/SizeClasses.h and SizeClasses.cpp. `build` is the constructor,
--     `size_classes` the table, and each search carries the name of its method; Rounding is about the
--     searches by bits, Lookup about the whole of `size2SizeIdx` in the default configuration, and Pages
--     about its run classes, as what Sizes asks for.
--   Memory/ByteBuf: buffer/PooledByteBuf.cpp, buffer/Buffer.cpp, `PoolArena::reallocate` and
--     `PooledByteBufAllocator::calculateNewCapacity`; Contents, Growth, Writes and Read are its proofs,
--     and Huge is about a capacity beyond the size of a chunk.
--   Memory/Handle: the handles of buffer/PoolChunk.h.
--   Memory/Subpage: buffer/PoolSubpage.cpp. Search is about the bitmap search, Bits about setting a bit,
--     Fresh about the constructor, Allocation and Release about the two operations.
--   Memory/LongPriorityQueue: buffer/LongPriorityQueue.h, a vector with its size. Order is about the
--     heap, Occurrences about how often a handle is held, Laws and Removal about the operations.
--   Memory/RunQueue: what a chunk needs of its queues, as a record; RunQueue/Heap fills it with the
--     heap. Memory/Sizes: what a chunk needs of the size classes, filled in SizeClasses/Pages.
--   Memory/PoolChunk: the runs of buffer/PoolChunk.cpp over these two records; Buffers has its
--     subpages and what a buffer is given. Runs has the invariant of the free runs and Updates how
--     the map and the queues change; Pages, Splitting, Allocation, Collapse, Release, Fresh and
--     RoundTrip are about the operations on runs, Fragments about the runs that stay apart,
--     Buffers/Elements and Buffers/RunSizes about the subpages.
--   Memory/ChunkLists: buffer/PoolChunkList.cpp and the lists and `allocateNormal` of
--     buffer/PoolArena.cpp, over a record of the calls on a chunk (Calls), which Pool fills with
--     PoolChunk. Moves is about where a chunk goes, Places about the one list that it stands in, and
--     Handles and Issues about the handles that chunks give out and get back.
--   Memory/ThreadCache: buffer/PoolThreadCache.cpp and PoolThreadCache.h, with the entries that go to
--     buffers and to the arena as answers; Conservation is about where they go.
--   Memory/Arena: allocate, free and freeChunk of buffer/PoolArena.cpp over the lists of chunks, the
--     cache and the calls on the lists of subpages, which Pool fills for one size and one chunk.
--     Accounts and Allocation are about the counters, Pieces about the handles, System about any
--     sequence of calls and the counters after it, System/Returned about the handles after it. A
--     counter (LongAdder) is taken as the sum of what was added.
--   Memory/Allocator: the sizes and the arenas of threads in buffer/PooledByteBufAllocator.cpp;
--     ChunkSize is about the size of a chunk, Sharing about the arenas.
--   Memory/Recycler: buffer/Recycler.h with the life of a buffer in buffer/PooledByteBuf.cpp; Reuse is
--     about one call, Runs about any sequence of them.
--   Net/Connection: TcpConnection.cpp with the loop's queue of its functors. Stream is about the bytes,
--     Lifecycle about its states.
--   Net/Poller: base/EPollPoller.cpp over epoll, which is a parameter with the documented laws.
--   Net/Channel: Channel.h and Channel.cpp. Watching is about what the kernel watches after the calls
--     that change a channel's mask.
--   Net/Wakeups: the loop of EventLoop.cpp with the threads that queue functors, as a step relation;
--     Lost shows what its reachable states have.
--   Net/Connector: Connector.cpp; Backoff is about attempts in a row that fail.
--   Net/Queue: MpscQueue.h, `doPendingFunctors` of EventLoop.cpp, EventLoopThreadPool.cpp.
--   Http/Request: http/HttpRequest.h.
--   Http/Context: http/HttpContext.cc; Scanning, Headers, RequestLine and RoundTrip read printed
--     requests back, Termination is about the loop.
--   Timer/Timeval: the times of timer/delay_queue/TimeEntry.h. Timer/Wheel: timer/TimingWheel.cc, the
--     wheels from the finest on; Branches has the branches of its functions, Linking is about the
--     chain of wheels and the ticks of a bucket, Placing about the bucket that a task gets.
--   Timer/Lists: timer/TimerTaskList.cc and timer/Timer.cc. Endless, with Waiting, is about a flush that
--     meets an entry which is not due, Firing about one whose entries are due, Lone about a task from
--     its start to the thread pool.
--   Timer/DelayQueue: timer/delay_queue/DelayQueue.h over std::priority_queue and the clock, which are
--     parameters.
--   Timer/ThreadPool: timer/thread_pool/ThreadPool.cc, the threads of the pool and those that call it, as
--     a step relation. Counts counts the threads at a place, Places and Invariant are about what holds
--     of the places in every run, Finished about the tasks when the threads have ended.
--   A module Tests holds the concrete runs of the module above it.
--
-- State is passed from call to call as a record. A failed assertion and an exception are `none`. What
-- a system call returns is an argument of the operation that makes it, so that a theorem holds for all
-- its answers. Callbacks and functors are recorded in the order in which they run or wait: what the
-- user's code does in a callback is a further sequence of calls.
--
-- Numbers are naturals; where an int wraps, the remainder is written out. The loops of the table of
-- size classes run for at most 32 groups of 4 lines, since the sizes double from group to group and an
-- int has 32 bits. The doubling in `calculateNewCapacity` takes at most 16 rounds from 64 to 4 MiB. The
-- parser's loop has one round more than the buffer has bytes, and each round that goes on takes two.
-- In the heap `lift` halves its index and has as much fuel as that, and `sink` doubles it and has the
-- size. A round that collapses runs takes in a page at least, so it has a round more than there are
-- pages. `calculateRunSize` tries at most as many pages as an element has bytes, which are a multiple of
-- it. A chunk passes at most the six lists of an arena.
--
-- The subpages of an arena's list are named by the offsets of their runs, so the list of a size stands
-- for those of one chunk. The buffers that a chunk caches are left out, as nothing ever fills them.
--
-- A flush takes a round for each entry and one to see that none is left; polling the delay queue, as
-- many polls as it has elements and one.
--
-- Not modelled: the striped counters, whose table is read before it is filled, the servers and the HTTP
-- response, the locks of the timer and the thread that advances it, the joins of the thread pool, the
-- wrappers of sockets and addresses, which only call the system, and the helpers of the folder base,
-- except for the poller.
pub mod Common
pub mod Memory
pub mod Net
pub mod Timer
pub mod Http
