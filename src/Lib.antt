-- ===== src/Lib.antt =====
-- NVMeVirt with a key-value flash translation layer (nvmevirt/): a kernel module that emulates an
-- NVMe SSD in memory and delays each request by the time that flash, channels and link would take.
--
-- The parts. A dispatcher (io.c, admin.c, pci.c, main.c) takes commands from the queues of the host
-- and hands them to the FTL (demand_ftl.c, with the mapping cache in cache.c and its eviction queue in
-- fifo.c, the list of buffers in lru.c and the two-level table of twolevel.c), which maps keys to
-- pages and asks the disk (ssd.c) when the flash has done its part. The disk asks a model of the
-- bandwidth of each NAND channel and of the PCIe link (channel_model.c).
--
-- Files:
--   Common            tests on numbers, masks, lists, and outcomes of C code
--   Channel           nvmevirt/channel_model.c, channel_model.h: chmodel_init, chmodel_request
--     Loop, Conserve    its `while (1)` loop: end, slots taken, credits taken
--     Invariant         the invariant of the ring, for a new channel and a moved head
--     Request           chmodel_request as a whole
--   Fifo              nvmevirt/fifo.c: rb_init, rb_push, rb_pop, fifo_init, fifo_enqueue, fifo_dequeue
--     Queue             the ring as a queue of bounded length
--   Ssd               nvmevirt/ssd.c, ssd.h, ssd_config.h
--     Params            ssd_init_params; Capacity: what it lays out; Bounds: that the numbers fit
--     Ppa               struct ppa, with mapped_ppa of nvmevirt/demand_ftl.c
--     Buffer            struct buffer and its operations
--     Nand              get_cell, ssd_advance_pcie, ssd_advance_write_buffer, ssd_advance_nand,
--                       ssd_next_idle_time; Channels: the transfers; Advance: each branch of the
--                       switch; Command: the whole call; Idle: ssd_next_idle_time; Init: ssd_init
--   Ftl/Address       nvmevirt/demand_ftl.c, demand_ftl.h: ppa2pgidx, ppa_to_struct, valid_ppa, grains,
--                     last_pg_in_line, peek_next_page
--     RoundTrip         pages by coordinates and by index
--     Walk, Peek        the order in which peek_next_page goes through a line
--     Same              grains, flash pages, the last page of a line
--   Ftl/Lines         nvmevirt/demand_ftl.c, demand_ftl.h: init_lines, get_next_free_line, __get_wp,
--                     prepare_write_pointer; Fresh: which line each write pointer gets
--   Ftl/Grains        nvmevirt/demand_ftl.c: advance_write_pointer, get_new_page, mark_line_free
--     Marks             mark_page_valid, mark_grain_valid, mark_grain_invalid, __grain2lineid
--     Victim            select_victim_line
--     Pqueue            what the FTL relies on of its priority queue, which is a parameter
--     Places            where a line may be: free, full, a victim, under a write pointer, cleaned
--     Relist, Turns     a line that is used up, and the next one; Moves: advance_write_pointer keeps
--                       each line in one place; Advance: the pages it goes through
--     Taken, Kept       mark_grain_invalid does so too; Rounds: grains of several pages
--     Clean             so do select_victim_line and mark_line_free
--   Io/Queue          nvmevirt/io.c, nvmev.h: the work queue of an I/O worker, __insert_req_sorted,
--                     __allocate_work_queue_entry, __enqueue_io_req, schedule_internal_operation,
--                     schedule_internal_operation_cb
--     Chain, Free       entries chained by their indexes; the free ones
--     Place, Order      where an entry is put in; Relink, Insert, Put: what its links become
--   Io/Reclaim        __reclaim_completed_reqs; Done: how far it looks; Freed, Queues: what it frees
--   Io/Worker         nvmev_io_worker, NVMEV_IO_WORKER_INIT; Init, Links: a new queue; Visit: what a
--                     visit does to an entry; Steps: the dispatcher and the worker together
--   Io/Rings          nvmev_proc_io_sq, nvmev_proc_io_cq, __nvmev_proc_io, __fill_cq_result
--     Phase, Read       the ring of completions, filled and read
--     Schedule, Serve   the internal work of the namespace; the ring of submissions
--   Cache             nvmevirt/cache.c, cache.h: init_cache, cache_hit, cache_hidx_to_grain, cache_get_ht
--     Sections          which section holds which hash index
--   Lru               nvmevirt/lru.c, lru.h: lru_cache_init, lru_cache_get, lru_cache_set,
--                     lru_cache_remove, lru_cache_get_oldest
--     Links, Members    the links of the items, and the list that they make
--     Calls, Set        what each call does to the list; Refine: all calls together
--   Twolevel          nvmevirt/twolevel.c, twolevel.h: twolevel_init, twolevel_expand, twolevel_find,
--                     twolevel_direct_read, and what twolevel_insert does within a leaf
--     Reload            __new_roots, twolevel_reload, twolevel_insert, twolevel_bulk_insert
--     Search, Find      __lower_bound, and what is found in a table
--     Initial           the table after twolevel_init
--     Change, Remove    a pair overwritten, a pair deleted
--     Insert, Room      a pair put into a leaf; Fresh: a key that the table had not
--     Dealt, Roots      the pairs that a leaf gets when they are dealt out, and the root keys
--     Bulk              twolevel_bulk_insert on empty leaves
--     Pairs, Reinsert   the pairs that a reload collects, and how it puts them back
--     Redeal, Full      twolevel_reload, and twolevel_insert of a key whose leaf is full
--     Sort, Sorting     what the sort of the kernel does, and a sort that does so
--     History           tables as maps from keys to ppas
--   The modules named Tests apply the theorems to concrete disks and channels.
--
-- How the code is modelled. The configuration is SAMSUNG_970PRO_HASH_DFTL with ORIGINAL, and
-- without it for twolevel.c, which only that build has. The priority queue of the FTL and the sort
-- of the kernel are parameters, and so is proc_io_cmd of the namespace, on a state of its own: it
-- answers a command and lists the internal operations that it schedules meanwhile, which the
-- dispatcher's model puts into the queues of the workers. A ring of completions is a function of
-- the slot, with the pages of 256 slots that nvmev_proc_io_cq can read. The memory of lru.c is a
-- function from addresses to items, with 0 for NULL; that of a table in twolevel.c is its root and
-- its leaves, and a position in it stands for the ppa of a slot. Structures are records and state
-- is passed along. Arrays are functions of the index. Numbers are natural numbers; 32-bit and
-- 64-bit assignments and bit fields wrap where they are written so (`u32`, `u64`, `% 2 ^ k`), and
-- the other sums and products are ones that hypotheses or theorems keep in range. The clock is a
-- function from a reading to its value, so it may do anything, even go back. An outcome is `ok`,
-- `bug` (a failed assertion, or a fault) or `stuck` (a wait that never ends). A function under one
-- lock from beginning to end is one step; the two spin locks of the timing model, which one path
-- leaves locked, are part of the state.
--
-- Loops. The loop of chmodel_request is given as many rounds as the ring has slots, which
-- `consume-Scanned` shows to be enough; the transfer loop of NAND_READ one more than there are bytes
-- left, which is enough since each round transfers at least one. The walks through a work queue of
-- 16384 entries have 16385 rounds, that of nvmev_proc_io_cq two more than the ring has slots,
-- mark_grain_invalid one more than there are grains, and select_victim_line two, since it sets one
-- line aside at most. __lower_bound has one round more than there are leaves, and twolevel_bulk_insert
-- one more than there are pairs and leaves together. The loops of ssd_next_idle_time are structural.
--
-- Not modelled: store, retrieve and delete, the copying of garbage collection and the eviction of
-- the FTL; the pages, blocks and planes that ssd_init allocates; destroy_cache and cache_full; of
-- io.c the transfer of data by PRP lists, the interrupts and the stop of the threads; admin.c, pci.c,
-- main.c, dma.c; city.c, pqueue/ and drivers/, which are copies of other projects.
pub mod Common
pub mod Channel
pub mod Fifo
pub mod Ssd
pub mod Ftl
pub mod Cache
pub mod Io
pub mod Lru
pub mod Twolevel
