-- ===== src/Lib.antt =====
-- A model of lio, a completion-based input/output driver for one thread, and its theorems.
--
-- How the program works. A caller schedules an operation (lio/src/op.rs) with the driver
-- (lio/src/lio.rs). The driver keeps a registration for it (lio/src/registration/), which knows
-- whom to tell, in the store (lio/src/backends/store.rs) under a key of 64 bits, and hands the
-- operation and the key to a backend (the trait in lio/src/backends/backends.rs). A round of the
-- event loop (`run_inner`) asks the backend for completions, marks their registrations, and frees
-- the keys of those that have consumed their result; `check_done` fetches the others.
--
-- The files.
-- - Base: numbers, lists, integers, outcomes that may panic, association lists.
-- - Store: `OpStore`. A slot is the record `Slot`; `get_mut` is the reading `get` and the writing
--   `put`. Its children hold the packing of keys, the invariant, and what each operation does.
-- - Op: `Op`, `OpCompleted` and the trait `IoBackend`, a record of operations on the backend's
--   state. Registration: `Registration`, `Notifier`; a wake-up or a callback is an `Effect`.
-- - Driver: `Lio`, over any backend.
-- - Interest, Syscall, Poller: `Poller` of lio/src/backends/impls/pollingv2/mod.rs. The kernel is a
--   function from a system call and a world to the value returned, the errno and the new world; the
--   poller of the operating system (epoll or kqueue) is a record of operations, `ReadinessPoll`.
-- - Poller/Epoll: `OsPoller` of lio/src/backends/impls/pollingv2/os/epoll.rs, over the system calls
--   it makes; `epoll` is its `ReadinessPoll`. Poller/Epoll/Notifying is its notifier; Opening
--   and Making follow the open descriptors, Waking is about emptying a pipe.
-- - Contract: what the driver relies on in a backend, as laws, and a stricter form for backends whose
--   `push` loses nothing. Driver/Safety, Driver/Readers and
--   Driver/Calls are about the driver over any backend with these laws.
-- - Io: `Io`, `IoFuture` and `Receiver` of lio/src/api/io.rs, over the driver. A typed operation is
--   a record `TypedOp` of its two methods.
-- - Typed: the typed operations of lio/src/api/ops, by files: Typed/Buffers, Typed/Files and
--   Typed/Sockets; Net: the socket addresses of lio/src/net_utils.rs.
-- - Api: the functions of lio/src/api/mod.rs. Net/Socket and Net/Tcp: the sockets of lio/src/net. The
--   async functions are state machines: `poll_connect` in Net/Tcp, `poll_bind` in Net/Tcp/Binding, with
--   their runs in Net/Tcp/Connected; Net/Tcp/Waiting has the functions that wait on a channel.
-- - Resource: `Resource` of lio/src/api/resource.rs; its reference counts are a heap of cells. The
--   other modules take a resource for the descriptor that it owns.
-- - Poller/Kqueue: `OsPoller` of lio/src/backends/impls/pollingv2/os/kqueue.rs, over `kevent`; `kqueue`
--   is its `ReadinessPoll`.
-- - Dummy: `DummyBackend` of lio/src/backends/impls/dummy.rs.
-- - Uring: the ring of lio-uring/src/lib.rs over the C library liburing, a record of its functions,
--   and Uring/Entries: the builders of lio-uring/src/operation.rs, with those that the driver does not
--   submit in Uring/Entries/Transfers, Paths and Control. IoUring/OneShot and
--   Uring/Selection are about their entries, Uring/Completions is about the answers.
-- - IoUring: the backend of lio/src/backends/impls/io_uring.rs on such a ring; Uring/Setup makes the
--   ring.
-- - Iocp: the backend of lio/src/backends/impls/iocp.rs over Windows, a record of its functions:
--   Iocp/Starting is `push`, Iocp/Polling the loops over the completion port and the rest.
-- - Dummy/Lawful, IoUring/Lawful, Iocp/Lawful and Poller/Lawful are about the four backends under
--   Contract; Poller/Selector is what the last of them relies on in the operating system, and
--   Poller/Soundness, Accepting, Handling and Reporting are its parts.
-- - Ffi: the C interface of lio/src/ffi.rs, over the driver, the typed operations and the resources:
--   Ffi/Calling has its functions. A callback of C is a number, and what it is given a `Call`.
-- - Buf: the pool of buffers of lio/src/buf.rs; the channel of free indices is a queue.
-- - Tests: the theorems at concrete inputs.
--
-- Conventions. A panic, an `unwrap` or an `expect` that fails and an `assert!` that fails are the
-- value `panic` of `Outcome`. An `io::Result` is `IoResult`. Numbers of a fixed width are natural
-- numbers with their bound as a hypothesis or their wrap-around written out; `isize` is ℤ. A
-- `HashMap` is an association list read by `lookup`. Loops run over lists, except those that ask
-- for more until there is none (the drain of a ring, of a completion port or of a pipe, an
-- iterator over a buffer), which have fuel: a loop whose fuel is spent returns what it has. For the
-- ring, the pipe and the iterator it is proved that fuel for as many items as there are is enough. What
-- is proved of the completion port holds for any fuel; that some fuel is enough for it is not proved,
-- since Windows may hand out completions for ever.
--
-- Not modelled: the erased types of callbacks and buffers (pointers are numbers), the entries of 128
-- bytes for commands, options for opening a file (no code uses them), calls of the C
-- interface from inside a callback, tests and build scripts.
pub mod Base
pub mod Store
pub mod Op
pub mod Contract
pub mod Net
pub mod Resource
pub mod Typed
pub mod Io
pub mod Registration
pub mod Driver
pub mod Interest
pub mod Syscall
pub mod Poller
pub mod Dummy
pub mod Uring
pub mod Api
pub mod Ffi
pub mod IoUring
pub mod Iocp
pub mod Buf
mod Tests
