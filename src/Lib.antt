-- ===== src/Lib.antt =====
-- A model of the NASDAQ ITCH 5.0 feed handler, and what holds of it.
--
-- The program walks a buffer of length-prefixed frames, decodes each frame by the packed structs of
-- the wire format, and drives a matching engine that keeps, for each instrument, a book of resting
-- orders. Orders and price levels stand in two memory pools, and an index leads from order ids to
-- orders.
--
-- Parser holds include/Parser.hpp: Run the function `run`, Dispatch the switch, Handlers the
-- functions `handle_...`. Messages describes the messages that change a book independently of the
-- handlers, as an encoder and as the call of the engine each stands for. Endian and Wire hold
-- include/Endian.hpp and include/WireFormat.hpp, RunStats the counters of include/Stats.hpp, and
-- Report the breakdown per message type that the same file prints.
-- Engine holds the class `MatchingEngine` of include/MatchingEngine.hpp: State the counters and the
-- state, and one module for each group of handlers, Add, Reduce, Replace, Cross and Info. A handler
-- `on_...` is a function from its arguments and the engine to the engine; what it does from some
-- line on is a function of its own, with a name that says what has happened before.
-- Index is the class `DirectOrderIndex` of the same file, Instruments include/InstrumentMap.hpp.
-- Book holds the class `OrderBook` of include/OrderBook.hpp: State, LevelList (the lists of levels),
-- Orders (the methods that change orders), Walks (the visits and the clearing). FlatMap is the
-- template `FlatHashMap` of the same file, Level is include/PriceLevel.hpp, Pool is
-- include/MemoryPool.hpp, and Types has include/Order.hpp and what is used of include/Types.hpp.
-- Links is the theory of doubly linked lists that Level and Book share.
-- Logger holds include/Logger.hpp. A state of Logger/System has the shared fields, where each of the
-- two threads stands with its local variables, and a history; a step is one access to a shared field
-- by one thread, with the local work behind it: `log_step` for the thread that logs and `drain_step`
-- for `drain_loop`. The accesses happen in one order, which the `release` and `acquire` of `head_`,
-- `tail_` and `running_` give for the slots; the order of the memory model is not derived.
-- Mapping is the class `MMapFile` of src/MMapFile.cpp, with what the system answers as arguments and
-- the calls listed. Program is src/main.cpp: the options, Process what the host gives and how the
-- process ends, and Main the way from the arguments over the pools, the mapping, the log and the
-- parser to the exit code, which `run` of include/ITCHProcessor.hpp shares; Sample is the end of the
-- report that both files print.
-- The proofs about a part stand in modules below it, named for what they are about:
-- Pool/Ownership and Building, Level/Queue and Unlink, FlatMap/Probe to Remove, Index/Lookup, Book/Ladder,
-- Insertion, Removal, Side, Fills, Visits and Clearing, Engine/Counters, Sound and Steady,
-- Endian/Bits and RoundTrip, and Parser/Registry, Decode, Rounds, Framing and Counters,
-- Logger/Text, Invariant, Safety and Stopping, Report/Rows and Listing, Mapping/Owners,
-- Program/Sizes and Options. Tests applies them at concrete inputs.
--
-- A pointer is an optional slot number, and a store is a function from slot numbers. A method takes
-- the object and the stores that it writes through pointers, and returns them all. An unsigned
-- integer is a natural number with its wrap-around written out. What an uninitialised block holds
-- and the byte order of the host are arguments.
--
-- The size of a pool in bytes is a product modulo 2 ^ 64; a slot has 64 bytes for an order and, with
-- pointers of 64 bits, 56 for a level. What follows writes behind a block that is too small is an
-- outcome of its own.
--
-- Bounds: `run` is given a round for each byte of the buffer, and a round consumes two bytes at
-- least; the walk of `insert_level_sorted` has a round for each level counted on its side and one
-- more, as have the visits of a book; the repair of `erase` has twice the capacity, and its run ends
-- at a free slot within one capacity; the walk of `free_count` has the capacity and one.
--
-- The drain thread needs no fuel: the number of its moves after `stop` is bounded by a rank.
--
-- Not modelled: the memory orders of the log beyond the one order of accesses, `advise_sequential`
-- and `prefault` of src/MMapFile.cpp, which change nothing, the floating-point rates and percentages
-- of include/Stats.hpp, the printed counters of the engine and the usage text, the numerals that
-- `strtoull` reads, which are an argument, and the allocation of instruments, tables and the ring of
-- the log and the start of its thread, which are taken to succeed; the allocation of the two pools
-- may fail. The engine holds the logger but never calls it.
pub mod Prelude
pub mod Types
pub mod Links
pub mod Pool
pub mod Level
pub mod FlatMap
pub mod Book
pub mod Index
pub mod Instruments
pub mod Engine
pub mod Endian
pub mod Wire
pub mod RunStats
pub mod Report
pub mod Logger
pub mod Parser
pub mod Mapping
pub mod Program
pub mod Tests
