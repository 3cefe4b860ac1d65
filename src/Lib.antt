-- ===== src/Lib.antt =====
-- A verification of rg, a header-only C++ scheduler of tasks that are coroutines. Tasks name the
-- resources that they access and how, and start when no earlier task stands in their way.
--
-- How the parts interact. `dispatch_task` (include/dispatchTask.hpp) calls a coroutine, whose
-- promise (include/Task.hpp) holds a wait counter, and adds it to the `ResourceNode`
-- (include/ResourceNode.hpp) of each resource that it accesses. A node lets a task start when the
-- access modes (include/resources.hpp) of the tasks before it allow that, and counts the wait
-- counter down; whoever brings it to 0 after registration runs the task or adds it to the pool
-- (include/ThreadPool.hpp). At its end a task resumes who waits for it and lets go of its promise
-- (include/FinalDelete.hpp); the last of the counted handles (include/SharedCoroutineHandle.hpp)
-- destroys the promise, which removes the task from its nodes and so starts others. A coroutine at
-- a barrier waits in the `BarrierQueue` (include/BarrierQueue.hpp), which idle workers look
-- through. Frames come from the allocators of include/alloc.
--
-- Which file models which part:
--   Access      `AccessMode` and `is_serial_access` of include/resources.hpp
--   Node        `task_access` and `ResourceNode`: `add_task`, `remove_task` and their loops. A call
--               runs by itself. Node/View is the queue that a node stands for: running tasks and
--               waiting tasks, in order
--   WaitCounter the atomic updates of a wait counter, in any order that the callers allow
--   Dispatch    `process_handle` and `dispatch_task`, on the nodes of Node
--   Await       `workingState` and `continuationHandle`: `final_suspend`, `GetAwaiter` and the
--               synchronous `DispatchAwaiter`. The threads of the waiter and of the task interleave
--               Await/Value adds the result of the task
--   Handle      `SharedCoroutineHandle` and `FinalDelete`
--   Barrier     `BarrierQueue`
--   Pool        `ThreadPool`: `addTask` and a turn of `worker`. Pool/Run is the life of a pool: the
--               loops of its workers with their stop tokens, which interleave turn by turn,
--               coroutines that are put into the barrier queue, `finalize` and the destructor
--   Random      `XorShift` of include/random.hpp
--   Alloc       `MemBlk`, `AffixAllocator`, `AlignedAllocator`, `CounterAllocator` and `Segregator`
--   Slab        `SlabTLSAllocator` on one thread
--   Race        `ResourceNode` again: one adding thread and any number of removing threads, whose
--               accesses to shared members come in any order
--   Life        `Task` and its promise: who owns a task, `coroOutsideTask` and `await_transform`, whose
--               overload depends on whether the operand is a variable or a temporary
--   Awaiter     `BarrierAwaiter` of include/barrier.hpp
--   Suspend     the asynchronous `DispatchAwaiter` of include/dispatchTask.hpp
--   InitTask    `InitTask::get` of include/initTask.hpp, against the task that runs in the pool,
--               with the spurious wake-ups of its wait;
--               InitTask/Root is the ownership of the coroutine and the wait of `~InitTask`
--   FreeList    `FreeListTLS` of include/alloc/FreeListTLS.hpp. FreeList/Local is the older `FreeList`
--               of include/alloc/FreeList.hpp
--   MathUtils   `modulo` of include/math_utils.hpp, on unsigned values
--   Resource    `GlobalIDGenerator`, `Resource` and `ResourceAccess` of include/resources.hpp
--   Start       `HwlocTopology` of include/hwloc_ctx.hpp, the constructor of `ThreadPool` and
--               `pinThreadToCore`
--   Coro        `CoroAllocator`, put together from Alloc, Slab and FreeList
--   Deregister  the destructor of a promise of include/Task.hpp, on the nodes of Node
--   Skynet      `skynet_one` of examples/skynet.cpp, by the values of the tasks
--   Queens      `nqueens` of examples/nqueens.cpp, by the values of the tasks; a value that `char` or
--               `int` does not hold is undefined
--   Schedule    a program: dispatches of tasks, barriers and ends of tasks in any order, on all
--               resources, put together from Dispatch, Awaiter, Deregister and Node
--   Fib         `fib` of examples/fib.cpp, by the values of the tasks
--   Prelude     tests, lists, outcomes and bitwise operations that the others share
--
-- Pointers are addresses in the native numbers, and 0 is null. Counters of type `uint32_t` and sizes
-- of type `size_t` keep their wrap-around. Undefined behaviour is an outcome of its own
-- (Prelude/Exec), for an index out of range, for a null pointer that is followed and for an `int` that
-- overflows.
--
-- Fuel. The loops of `remove_task` run along the array of 1024 tasks, each round one entry further,
-- and get 1025 rounds; `process_and_extract` gets one round more than the queue has entries. The
-- theorems on them say that they return, so the fuel is enough wherever these apply.
--
-- Assumptions. In Race a task is added while the array has room, with a handle that no entry has
-- which `first` has not passed, and removals are for ready entries, one for each; that is what
-- coroutines that are alive and registered once with a node give while no entry is marked as
-- removed. In Schedule a task has a wait counter and a handle that no other unfinished task has,
-- it names each resource at most once, with fewer than 2^16 accesses, and it comes while the
-- array of every node has room for its accesses and one more; it ends when no earlier unfinished
-- task shares a resource with it, since Node.Lost shows what happens to others. Each access to a
-- shared member sees the last value written; weaker memory orders are not modelled. A call in
-- Node runs by itself, and so do the calls in Schedule and a turn of a worker in Pool/Run.
--
-- Not modelled. `riften::Deque` (include/dequeue.hpp) is a copy of another project: the pool takes
-- its operations, with what they do to the handles in a queue, as the record `Pool.Deque`. The calls
-- of hwloc are the record `Start.Hwloc`. The base of an allocator, in the end `operator new`, and the
-- stack of Boost in a free list (`FreeList.Stack`) are parameters too.
-- include/MPMCQueue.hpp and the drafts include/alloc/Slab.hpp and include/alloc/Back.hpp are not
-- used by the program.
pub mod Prelude
pub mod Access
pub mod Node
pub mod WaitCounter
pub mod Dispatch
pub mod Await
pub mod Handle
pub mod Random
pub mod Barrier
pub mod Pool
pub mod Alloc
pub mod Slab
pub mod Life
pub mod Awaiter
pub mod Suspend
pub mod InitTask
pub mod MathUtils
pub mod FreeList
pub mod Resource
pub mod Race
pub mod Start
pub mod Coro
pub mod Deregister
pub mod Skynet
pub mod Queens
pub mod Schedule
pub mod Fib
