-- ===== src/Lib.antt =====
-- A model of the core of smr-benchmark: schemes of safe memory reclamation, and the
-- concurrent data structures that they are measured on.
--
-- The parts, and how they interact. A data structure under src/ds_impl is a set of nodes
-- behind atomic pointers. A thread works on it under a guard of a reclamation scheme under
-- smrs/, unlinks nodes, and hands them to the scheme, which destroys a node once no guard can
-- refer to it. Modelled are the epochs, the queue and the counts of smrs/circ, the hazard
-- pointers of smrs/hp-pp, the versions of smrs/vbr and the bags of smrs/nbr, and, of
-- src/ds_impl/nr, which frees nothing, the Bonsai tree, the lists and the hash map over them.
--
-- - Prelude: the names of the libraries, Boolean tests, lists and signed integers over the
--   native numbers; Prelude/Family has families and their update, Prelude/Counting how often
--   an object stands in lists and over threads.
-- - Ebr/Epoch: smrs/circ/src/smr/ebr_impl/epoch.rs. `Epoch` is a word of 64 bits, its field
--   `data` is `bits`; the bit operations are written with `/`, `*` and `%`. An access to an
--   `AtomicEpoch` is an access to the field that holds the epoch.
-- - Ebr/Bag: `Bag` and `SealedBag` of smrs/circ/src/smr/ebr_impl/internal.rs.
-- - Ebr/Race: `Global` and `Local` of internal.rs as `n` threads run them, each step one
--   access to shared memory by one thread: `Move` is the step of a thread, indexed by its
--   program counter `Pc`, `Step` that of the system, `Reach` the states after `k` steps. A
--   thread starts `pin` (`pin_load`, `pin_publish`, `pin_valid`, `pin_stale`, `pin_again`),
--   and under its guard runs `defer` (`defer_push`), `push_bag` (`seal_load`, `seal_push`),
--   `try_advance` (`advance_load` to `advance_store`), `collect` (`collect_load`,
--   `collect_pop`, `collect_stop`), `repin_without_collect` (`repin_load`, `repin_same`,
--   `repin_store`) and `unpin` in any order. The clients of the scheme are there too: a
--   thread takes references to objects that are linked (`acquire`), and unlinks objects
--   (`unlink`), which `defer` then takes. The invariant is in Race/Invariant; Race/Pins,
--   Race/Bags and Race/Moves are about its preservation, Race/Safety, Race/Garbage and
--   Race/Progress about the states that are reached.
-- - Ebr/Queue: the queue of smrs/circ/src/smr/ebr_impl/sync/queue.rs, in which `Global` keeps
--   its bags. `Queue` is the two words and a store of nodes; `Move` is one access by one
--   thread within `push` with `push_internal` (`push_start` to `push_swing`) or `try_pop` and
--   `try_pop_if` with `pop_internal` and `pop_if_internal` (`pop_start` to `pop_retire`),
--   `Event` what it does to the list that the queue stands for. The invariant of the chain of
--   nodes is in Queue/Invariant, Queue/Nodes, Queue/Threads, Queue/Chain and Queue/Moves are
--   about its preservation, Queue/Linear about the states that are reached.
-- - Ebr/Intrusive: the list of smrs/circ/src/smr/ebr_impl/sync/list.rs, in which `Global`
--   keeps its locals. `EntryList` is the struct `List` with the words `next` of its entries,
--   which stand for themselves: `entry_of` and `element_of` do not change them. `Move` is one
--   access by one thread within `insert` (`insert_start` to `insert_lost`), `delete`
--   (`delete_entry`), `iter` (`iter_start`) or `next` (`next_end` to `restart`);
--   `next_assert` is the debug assertion there. `drop_list` is the drop of the list.
--   Intrusive/Ways, Shape, Stable, Changes, Unlinking and Moves are about the invariant and
--   its preservation, Intrusive/Safety and Intrusive/Drop about the states that are reached.
-- - Ebr/Global and Ebr/Local: the operations of `Global` and `Local` with all their counters
--   and flags, on the state of one participant, while no other takes a step, but that `pin`
--   is given what the loads of each round find, and a collection what a deferred function
--   does to the participant; the theorems about `unpin` are for functions that do not call
--   back. The children of Local are about its operations: Trace, Defer, Pin, Collections,
--   Unpin.
-- - Bonsai: src/ds_impl/nr/bonsai_tree.rs. Node has `Node` and the tagged pointers of
--   src/ds_impl/nr/pointers.rs, State the struct `State` as a state monad in which a null
--   pointer that is dereferenced is a fault, Balance `mk_node`, `mk_balanced` and the
--   rotations, Update `do_insert`, `do_remove` and the pulls, Map the `BonsaiTreeMap`. Order
--   has the bound `K: Ord`, as an interface, and Entries the specification, a list of entries
--   in the order of the keys.
-- - Harris: src/ds_impl/nr/list.rs. `Harris` is the struct `List` with a store of nodes;
--   `Move` is one access by one thread within `find_harris` (`find_head` to `clean_lost`),
--   `find_harris_michael` (`step_head` to `skip_lost`), `find_harris_herlihy_shavit`
--   (`walk_head` to `walk_removed`), `get`, `insert`, `remove` (`get_done` to `detach_lost`)
--   or `pop` (`pop_start` to `pop_lost`). Which find an operation calls is left open: HList,
--   HMList and HHSList each choose one. Harris/Runs has the states that they reach,
--   Harris/Paths ways along the links, Harris/Invariant what holds of the nodes and of a
--   thread, Harris/Stable, Links, Insertion, Entries, Changes, Known and Moves are about its
--   preservation, Harris/Ahead and Harris/Hindsight about what a search has still ahead of
--   it, Harris/Linear, Harris/Misses and Harris/Lookup about the states that are reached.
-- - Buckets: src/ds_impl/nr/michael_hash_map.rs. `HashMap` has a list of Harris for each
--   bucket, and where each thread stands; an operation starts (`begin`) in the bucket that
--   `bucket_of` gives its key, and goes on there (`go_on`). Buckets/Keys and Buckets/Views
--   show the map to one bucket, Buckets/Linear is about the states that are reached.
-- - Tagged: `Tagged` of smrs/circ/src/utils.rs, a pointer with a low and a high tag, as a
--   word of 64 bits; the alignment of the type that it leads to is a parameter.
-- - Counts: the strong count of an object in smrs/circ/src/smr/hp.rs, as any number of
--   threads change its word: `increment_strong` (`increment_failed`, `increment`,
--   `increment_first`, `increment_second`), `decrement_strong` (`decrement`), `try_destruct`
--   (`destruct_later`, `permit`, `destruct`) and `non_zero`.
-- - Stamp: smrs/circ/src/smr/ebr.rs. `State` is its word of 64 bits, and each function of the
--   file is one of `State` or of `CsEBR`, on the word while no other thread takes a step;
--   `trans`, `inver`, `le` and `modular_max` are `Modular`, by which `reclaims_now` and
--   `release_next` decide in `dispose_general_node` and `dispose_list`.
-- - Vbr: smrs/vbr/src/lib.rs. `Memory` is `Global` with the two epochs of each slot, `Inner`,
--   and the words of the links, `MutAtomic`; `Thread` is `Local` with the epoch of its guard.
--   `Move` is one access by one thread within `Local::new` (`new_local`), `refresh`,
--   `allocate` with `pop_avail`, `acquire`, `return_avail` and `advance` (`allocate_start` to
--   `set_retire`; the debug assertion is `allocate_assert`), `retire` and `retire_raw` with
--   `push_retired` (`retire_start` to `push_new_bag`), `load` (`load_link` to
--   `validate_fails`), `compare_exchange` (`exchange_start` to `swap_lost`) or the drop of
--   `Local` (`leave` to `left`). Vbr/Runs has the states that they reach, Vbr/Words the words
--   of links and pointers; Vbr/Bags, Invariant, Facts, Allocating, Retiring and Moves are
--   about the invariant, Vbr/Effects about the epochs that a step changes, Vbr/Safety and
--   Vbr/Versions about the states that are reached.
-- - Blocks: `BlockBag`, `Block` and `BlockPool` of smrs/nbr/src/block_bag.rs; a block is the
--   list of the objects in it, the pool a count of empty blocks, and an assertion that fails
--   is `none`.
-- - Hazard: smrs/hp-pp/src/hazard.rs, thread.rs, retire.rs and domain.rs under interleavings.
--   `Guard` is a step of a hazard pointer (`protect_raw`, `validate`, the loop of `protect`,
--   `reset_protection`), `Move` a step of a thread (`retire`, `flush_retireds`, and
--   `do_reclamation` as `pop_all`, `scan` of one slot, `scanned`, `keep`, `free`, `swept`).
-- - Hazard/Local: the operations of `Thread` there, with their counters, the epochs of HP++
--   and the slots, while no other thread takes a step. Local/Same and Local/Depth are about
--   what they leave alone and how deep `retire` calls itself, Local/Accounts is about
--   reclamation, Local/Tally about where each node is, Local/Slots about the slots,
--   Local/Barriers about epochs.
--
-- Bounds and fuel. An epoch is a word that wraps; the interleavings are followed for fewer
-- than 2^60 steps, in which the epoch, which starts at 0, does not wrap; a count is followed
-- while it fits its 31 bits. The epoch of smrs/vbr starts at 1 and is followed for fewer than
-- 2^64 - 2 steps, in which it stays below `NOT_RETIRED`. Arithmetic that the build checks is
-- `panic` where it overflows; the size of a tree counts nodes in memory and does not. A loop
-- is given fuel: two rounds for the loop of `defer`, and for that of `unpin` where functions
-- do not call back, one for `get`, `insert` and `remove` of the Bonsai tree when no other
-- operation changes the root. `collect` has its own bound of 16 trials. The drop of the list
-- of entries is given fuel above the number of insertions.
--
-- Assumptions. The interleavings are sequentially consistent: the fences and the memory
-- orderings of the source are not modelled. In Ebr/Race the queue of bags is pushed and
-- popped at one moment, as the refinement in Ebr/Queue has it, and the list of locals is read
-- in the order of the participants, all of which are registered at the start, each once, as
-- an iterator of Ebr/Intrusive reads every entry that stays; one that has not registered or
-- has left is one that is unpinned. In Ebr/Race and Counts a deferred function does not call
-- back; that of an object with a count does not run while a thread is within
-- `increment_strong`, since the thread protects the object by a hazard pointer. The allocator
-- gives fresh addresses, so that equal pointers lead to equal nodes, which are not written
-- after they are published. What other operations store to the root of a Bonsai tree is a
-- parameter: the root that each load of the operation finds.
--
-- The keys of the lists are numbers, of the type `usize` in the drivers. Guards keep the
-- addresses of the nodes of the queue from being given out again. The clients of the hazard
-- pointers retire an object once, when no link leads to it, and store no link to it
-- afterwards. The calls of `retire` by itself are given a depth, of which one is enough.
-- Those of the intrusive list insert an entry once and delete it once it is inserted, and
-- their guards keep its address. Those of smrs/vbr retire a slot by a pointer of its birth
-- while no other thread does. The queue of bags there is a third-party one, of which a pop
-- takes some bag that is in it. The hash of a key is a parameter.
--
-- Not modelled: the guards and collectors of smrs/circ/src/smr/ebr_impl, the recursion of the
-- disposal and the pointers on top of the counts of smrs/circ, the schemes smrs/cdrc and
-- smrs/hp-brcu, smrs/nbr but for its bags, of smrs/vbr the data of a slot with `Entry`,
-- `ImmAtomic` and `MutAtomic::store`, what smrs/hp-pp keeps of its threads in lists, its
-- validation with a test of the client, the other data structures, and the drivers under
-- src/bin, which are timers, random workloads and output.
pub mod Prelude
pub mod Ebr
pub mod Bonsai
pub mod Tagged
pub mod Counts
pub mod Hazard
pub mod Harris
pub mod Stamp
pub mod Blocks
pub mod Vbr
pub mod Buckets
