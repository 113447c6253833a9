-- ===== src/Lib.antt =====
-- The laboratory programs of OS-SP as functions and step relations, with the theorems that hold
-- of them. The programs do not share code but for copies of the same functions; each part below is
-- a program or a piece of one.
--
-- Message: LAB_5.1/src/message.c (LAB_5.2/src/message.c has the same text) and the DJB2 functions
--   of LAB_4/src/ipc_utils.c: the hash, the check and the generators of messages. The 64-bit hash
--   is written with `% 2 ^ 64`, the result with `% 2 ^ 16`; `rand` is a parameter.
-- Queue: LAB_5.2/src/queue.c, the queue with a mutex and condition variables. A function is one
--   step under the mutex. A wait releases it, so `queue_push` and `queue_pop` take the list of what
--   their waits observe; `blocked` is a call that still waits when the list ends, `fault` an access
--   outside the buffer. `malloc` is an argument. The counters
--   are natural numbers, as if an `int` had no bound. Queue/Fifo has a list as its specification, and
--   Queue/Abstract the quotient of the valid queues by contents and size.
-- Threads: the thread tables of LAB_5.2/src/common.h, the commands of parent.c and the shutdown of
--   cleanup.c, on top of Queue. `pthread_create` is an argument; the threads that are cancelled and
--   joined are recorded in order. Threads/Loops has the loops of producer.c and consumer.c as steps
--   in any order, without resizes and cancellations between them; a call of the queue that has to
--   wait is made again when its thread is woken. The limit of ten threads is left out there.
-- Semaphores: LAB_4/src/ipc_utils.c, producer.c and consumer.c. The processes take steps in any
--   order (`Step`), signals arrive between them (`Signal`); `Reachable` has no signals, `Signalled`
--   has them. An `int` is given by its 32 bits. The limit of ten processes is left out, so there
--   are more reachable states than the program has. A wait is interrupted only while it blocks. The sums that the steps keep are in
--   Semaphores/Invariant and Semaphores/Steps. The commands and the shutdown of parent.c are in
--   Semaphores/Commands; whether `kill (pid, 0)` finds a process, after what has
--   been done so far, is a parameter.
-- Sort: LAB_6/src/sort_index.c. Blocks are cut and sorted (Sort, Sort/Blocks), rounds of merges join
--   them (Sort/Rounds), workers claim blocks and pairs under the map's mutex (Sort/Claim), main
--   cuts the file into chunks and merges them on file (Sort/OnFile, Sort/Chunks), the arguments are
--   read (Sort/Args, Sort/Numerals) and validate_cli checks them (Sort/Cli). Phase 1 is also modelled
--   as steps of its threads in any order (Sort/Workers, with the sort of one block as one step). In
--   the rounds of merges the threads work on disjoint parts of the buffer between two barriers, and
--   a round is one function. `qsort` is a parameter that is taken to sort and to keep the records
--   (`SortsIndex`); `malloc` and `pwrite` are parameters, with their failures. A `time_mark` is a
--   non-negative double, by its bits: negative numbers and NaN are left out. The rounds run on fuel: each halves the number of runs,
--   so more fuel than runs is enough; the chunk loop runs as often as the array has places.
-- Records: LAB_7/src/commands.c and file_ops.c, the file of records under record locks. What other
--   processes have done to the file when a lock is given is an input (`Turn`).
-- Protocol: LAB_8/src/protocol.c, the session loop of server.c and the reader of client.c
--   (Protocol/Client). The socket is the list of what its reads return; `send_line` gives the bytes
--   on the wire and the number of bytes read from behind its buffer. A session runs on fuel, and
--   one round more than the bytes received is enough.
-- Walker: LAB_1/dirwalk/src/dirwalker.c, with the tree as what `readdir`, `lstat` and `opendir`
--   return, and the results of the allocations as an input; its command line is in Walker/Flags.
--
-- Children: LAB_3/src/child.c and parent.c. The parent and its children take steps in any order, with
--   the delivery of signals among them; a signal that is pending is not queued again. `printed` and
--   `granted` count what the program does not. Children/Permission has the invariant, Children/Apart
--   what stays true of one child when no signal is on its way to it, Children/Ending the steps of a
--   child that ends.
-- Posix: LAB_5.1/src/queue.c, producer.c and consumer.c, the queue under POSIX semaphores. Threads
--   take steps in any order; the mutex makes a function of the queue one step. The shutdown clears
--   the flag and posts the semaphores. `queue_resize` is two steps, and its loop under the mutex is
--   that of Queue. A thread is not cancelled inside `printf`. The commands and cleanup.c are in
--   Posix/Shutdown, on the tables of Threads.
-- Environ: LAB_2/src/parent.c and child.c. The array of pointers is a list of cells that may be
--   uninitialised; the results of the allocations are an input. The commands give the children that
--   are started, and `child_main` what a child prints.
--
-- Prelude has the Boolean tests, the list functions on native numbers and their lemmas.
--
-- Not modelled: printing and prompts, the creation of sockets, shared memory, threads and
-- processes, and the generator and viewer of LAB_6.
pub mod Prelude
pub mod Message
pub mod Queue
pub mod Threads
pub mod Semaphores
pub mod Sort
pub mod Records
pub mod Protocol
pub mod Walker
pub mod Children
pub mod Posix
pub mod Environ
