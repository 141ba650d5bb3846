-- ===== src/Lib.antt =====
-- Pheromone: a serverless platform in which functions are triggered by the data objects that other
-- functions put into buckets. A manager (src/manager) assigns each application to a thread of a
-- coordinator (src/coordinator), the global scheduler. The coordinator keeps the buckets, the
-- triggers, where the objects are, and how many executors each node has free; it routes calls to
-- nodes, where a local scheduler (src/scheduler) runs them on executors (src/executor) and reports
-- objects back. Both schedulers share the triggers and the object names of common/include.
--
-- The files:
--   Prelude         numbers (`int` is ℤ, with its conversions to unsigned), lists, tests
--   HashMap, HashSet, Text   std::unordered_map, std::unordered_set, std::string
--                   (common/include/types.hpp); the order of iteration, which C++ leaves open, is
--                   the order of the list
--   Common/Key      BucketKey and its conversions (common/include/common.hpp)
--   Common/Split, Common/Random, Common/Timestamp   split, gen_random, generate_timestamp
--   Common/Requests, Common/Threads   the wait for responses (common/include/requests.hpp), and the
--                   addresses of coordinator threads (op_threads.hpp, kvs_threads.hpp)
--   Trigger/Types   the classes of common/include/trigger.hpp: a record of the fields of each
--   Trigger/Arrival action_for_new_object of each class
--   Trigger/Rerun   clear, notify_source_func, action_for_rerun, set_rerun_metadata
--   Trigger/Primitive   dump_pritimive and gen_trigger_pointer
--   Trigger/Batch, BySet, Group, Redundant, Pending, Restore   theorems on these
--   Messages        the messages of common/proto
--   Coordinator/State   the maps of a coordinator thread (src/coordinator/coordinator.cpp)
--   Coordinator/Bucket, Query, TriggerOp, FuncCall, Notify, Register   the handlers of
--                   src/coordinator, one file for each; Coordinator/Call is the batch scheduling of
--                   func_call_handler.cpp, and Coordinator/Notify/Data and Pick are the objects and
--                   the choice of a node in notify_handler.cpp
--   Coordinator/Notify/Slots, Executors, Worker, Active, Busy, Objects, Register/Owners,
--                   Register/Success   theorems on these
--   Coordinator/Loop    the hand-over of the messages to the handlers, and the status messages
--   Manager         src/manager/manager.cpp
--   Common/Result, Common/Stoi   the result of code that can fail, and std::stoi
--   Scheduler/State     the maps of `run` and the globals of src/scheduler/scheduler.cpp
--   Scheduler/Helper, Receive, Update, Kvs   what CommHelper (src/scheduler/comm_helper.hpp) sends,
--                   what it reads from coordinators and nodes, the updates of a coordinator, and the
--                   answers of the key-value store
--   Scheduler/Forward, Dispatch   forward_call_via_helper and schedule_func_call
--   Scheduler/Arrival   check_object_arrival (src/scheduler/object_handlers.cpp) and check_trigger
--   Scheduler/Objects, Requests   the messages of executors: objects that they send, and the others
--   Scheduler/Responses, Loop   what the helper received; delayed calls, the timer, and a round
--   Scheduler/IoThread  run_io_thread_loop and try_recv_msg of CommHelper: the queues between the
--                   I/O threads and the main thread; IoThread/Events is any sequence of what happens
--                   to a thread, IoThread/Batches, Requests and Responses are theorems on it
--   Scheduler/RequestIds, Agreement   theorems on the request ids, and on the triggers of a node
--                   with those of a coordinator
--   Scheduler/Placement, RerunQueue, Reruns, Starvation, Transfer, Deletion   theorems on these
--   System          a coordinator with a node: Entities, Dependencies, Registration, Addition,
--                   Objects and Notification take one message from its sender to its end, on the
--                   triggers that both hold (Replicas); Steps is any sequence of these
--   Executor/UserLibrary, Run   src/executor: the library of the functions, and the executor's loop
--   Executor/Messages, Replies, Lifecycle, Orderly, Invocation, Remote   theorems on an executor
--                   with its scheduler
--   Client          PheromoneClient (include/pheromone_client.h); Client/Addresses theorems on it
--   Tests           the theorems at concrete inputs
--
-- A handler is a function of the message and the state. It gives the new state and the messages that
-- it sends, in order; where the code can fail, it gives a Result, in which `crash` is an exception
-- that nothing catches or an invalid access. rand_r of the C library is a parameter that takes the
-- seed and gives a number and the next seed; the clock readings are arguments; protobuf is a
-- parameter with the law that reading what was written gives the message back.
--
-- Fuel: the search for a free node in Coordinator/Call looks at each node at most once, so the number
-- of nodes is enough, and Coordinator/Call/RoundRobin proves it; the power of ten in
-- Common/Timestamp takes nine rounds for ids below 10 ^ 9. The wait for responses is
-- recursion on what the socket's reads give, and the retry of delayed calls on the number of free
-- executors. All other loops are recursion on a list.
--
-- The loop over the rerun queue takes a round for each item that is due and one for the end:
-- Scheduler/Loop gives it one more than the length of the queue, and Scheduler/Reruns proves it
-- enough.
--
-- An executor and its scheduler talk through channels: Executor/Lifecycle puts the two together in
-- a step relation that is written after their loops, not translated from one place: a step is one
-- report sent or read, one call begun, finished or assigned; what a status becomes is the code of
-- the scheduler. Shared memory is a parameter that gives the bytes of a name. A trigger pointer is
-- an index into the triggers of a node, since the buckets, the timeouts and the rerun queue share
-- the triggers.
--
-- An I/O thread takes at most ten requests of its queue in a round, so that a request waits for a
-- tenth as many rounds as there are requests before it. A round, and what the main thread does with
-- a queue, is one event; the events of the threads come in any order.
--
-- Not modelled: the sockets, the polling and the log; the loading of a function, and what it does,
-- which are parameters; the lattices and the client of Anna, safe_ptr and everything under deps,
-- which are copies of other projects; benchmarks and scripts.
pub mod Prelude
pub mod HashMap
pub mod HashSet
pub mod Text
pub mod Common
pub mod Trigger
pub mod Messages
pub mod Coordinator
pub mod Manager
pub mod Scheduler
pub mod System
pub mod Executor
pub mod Client
pub mod Tests
