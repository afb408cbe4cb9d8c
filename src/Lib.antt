-- ===== src/Lib.antt =====
-- EdgeRuntime: shared-memory communication between processes on one machine.
--
-- The parts and how they meet. A bounded queue of many producers and consumers lives in one mapping:
-- a header with two positions, two gates (one for the producers, one for the consumers) and a
-- notification epoch, and behind it the slots. A push or a pop looks at the positions, asks whether
-- the consumers can still drain what is pending, takes its gate, works on one slot, advances its
-- position and lets go of the gate. A gate and a slot name their owner under an epoch that is odd
-- while the owner changes, so that anyone can read an owner without a lock. A pool of fixed-size
-- buffers lives in another mapping: a process claims a free block, writes into it and publishes it,
-- and hands on a descriptor with the block's generation; whoever has the descriptor claims the
-- published block, reads it and frees it. Blocks have owners and epochs like the slots of a queue. A
-- channel has one producer, one consumer and three slots: the producer writes into a slot that is
-- neither being read nor the latest one, and then names it in the latest ticket; the consumer claims
-- the slot of the latest ticket and looks at the ticket again.
--
--   CheckedMath        src/edge_runtime/utility/checked_math.hpp
--   Error              include/edge_runtime/common/error.hpp: the error codes
--   Shared             include/edge_runtime/common/result.hpp, src/edge_runtime/sync/shared_atomic.hpp:
--                      actions on shared memory. A world is a memory with the list of what other
--                      processes do before each access to it; a load, a store or a compare-and-swap
--                      is one step. `quiet` is the world in which nobody interferes. Shared.Keeps is
--                      what an action ensures while others keep to a relation.
--   Owner              src/edge_runtime/sync/owner_snapshot.hpp: snapshots and commits of an owner.
--                      Owner.Seqlock is the protocol of the writers, Owner.Snapshot the safety of a
--                      reader under it, Owner.Quiet what a reader sees alone.
--   Mpmc.Layout        src/edge_runtime/queue/mpmc_layout.hpp: sizes and offsets
--   Mpmc.State         the words of the header and the slots (`MpmcQueueHeaderAbi`,
--                      `MpmcSlotHeaderAbi`) and `MpmcQueueHandle`
--   Mpmc.Gate          src/edge_runtime/queue/mpmc_queue.cpp from `owner_valid` to
--                      `owner_observation_is_unrecoverable`
--   Mpmc.Admission     from `dequeue_drain_budget` to `validate_ticket_bounds`
--   Mpmc.Push, Pop     `mpmc_try_push_impl` and `mpmc_try_pop_impl`
--   Mpmc.Wait          `mpmc_wait_push_until_impl` and `mpmc_wait_pop_until_impl`
--   Mpmc.Remove        `mpmc_remove_if_creator_impl`
--   Mpmc.Status        `fill_status_owner` and `mpmc_status_impl`
--   Names              src/edge_runtime/channel/channel_layout.cpp: names and object names
--   Checksum           src/edge_runtime/utility/checksum.cpp
--   Mpmc.Header        `validate_header` and `open_existing`
--   Mpmc.Create        `validate_options` and the checks and stores of `mpmc_create_impl`
--   Mpmc.Invariant     a well-formed queue between operations, and its messages
--   Pool.Layout        src/edge_runtime/buffer/shared_buffer_pool_layout.hpp: sizes and offsets
--   Pool.State         the words of a pool's header and blocks, handles, descriptors and buffers
--   Pool.Blocks        src/edge_runtime/buffer/shared_buffer_pool.cpp: looking at blocks, their owners
--                      and their descriptors
--   Pool.Write         acquiring, publishing and aborting a write buffer
--   Pool.Read          acquiring and releasing a read buffer
--   Pool.Header        options and headers: `validate_options`, `validate_header`, `open_existing`
--   Pool.Create        the checks and stores of `shared_buffer_pool_create_impl`
--   Pool.Status, Remove  the report on a pool, and its removal by the creator
--   Pool.Owned         what the operations do to a block that their caller holds
--   Pool.HandOver      one message through the pool, from the writer's process to the reader's
--   Channel.Layout     src/edge_runtime/channel/channel_layout.hpp: tickets, sizes and offsets
--   Channel.State, Slot  the words of a channel, and src/edge_runtime/channel/slot_protocol.cpp
--   Channel.Identity   src/edge_runtime/channel/channel_abi.cpp: who has a role
--   Channel.Header     the same file: `validate_bootstrap_parse`, `validate_header_parse` and
--                      `validate_header_shape`
--   Channel.Use        one operation at a time on a handle, and its shutdown
--   Channel.Publish    src/edge_runtime/channel/producer_impl.cpp: publishing, at once or on loan;
--                      Channel.Publish.Spared is what it does to the latest sample while others work
--   Channel.Read, Recovery  src/edge_runtime/channel/consumer_impl.cpp: reading the latest sample, and
--                      the slots of a dead consumer
--   Channel.Delivery   one sample from the producer to the consumer
--   Supervisor.Restart  src/edge_runtime/process/supervisor_impl.cpp: `backoff_delay_ns` and
--                      `count_failure`
--   Owner.Part         an owner inside a larger memory
--   Mpmc.Spec          a list with a capacity, which Mpmc.Refine compares with the queue
--
-- Numbers are unbounded, and every wrap-around of the code is written out. The loops of the code
-- that retry are bounded there (`kOwnerSnapshotRetries` rounds), and have as many rounds here. The
-- loops that wait until a deadline take the number of rounds as an argument: a round that nobody
-- notifies sleeps a slice or up to the deadline, so that a round for every slice and one more are
-- enough where nobody interferes.
--
-- Not modelled: the strings and the errno of an error; null pointers, since handles and payloads are
-- values; failpoints, which do nothing in a release build; the environment variable that mutes the
-- notification; the system calls that open, size and map the object, and those that give random bytes:
-- what they give, if they succeed, is an argument of the creation. What a probe of a process
-- finds, and the clocks, are fields of the memories (`processes`, `now`, `boottime`), which
-- other processes may change like any other. The futex call and the unlinking of an object are
-- parameters. Plain stores under ownership are steps like atomic ones. Of a channel its creation,
-- opening, waiting, reconnecting, status and removal are not modelled, nor the control lock, the
-- broker of file descriptors and the supervisor's event loop, which are mostly system calls.
pub mod Channel
pub mod CheckedMath
pub mod Checksum
pub mod Common
pub mod Error
pub mod Mpmc
pub mod Names
pub mod Owner
pub mod Pool
pub mod Shared
pub mod Supervisor
