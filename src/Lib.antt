-- ===== src/Lib.antt =====
-- Verification of the wire, framing, message-validation and capability-table layers of the Cap'n Proto
-- implementation in Rust.
--
-- The program. crates/capnp-wire holds what is fixed by the encoding itself: eight-byte words, checked
-- byte and word ranges, scalars at any byte offset, word-aligned segments, and the bit fields of pointer
-- words. crates/capnp-io stands on it: the standard stream framing, a table of segment sizes before the
-- segments' bodies, and the packed encoding, which leaves zero bytes out. Both are functions on byte
-- slices that report malformed input and exceeded limits as error values; packed input that comes in
-- chunks goes through a decoder that keeps its place in the current item. crates/capnp-message reads the
-- segments that the framing delivers: a pointer, which may come from a hostile peer, is resolved through
-- its far pointers with every range checked, and what it leads to is charged to a traversal budget and a
-- nesting limit. crates/capnp-rpc-core keeps, for each connection, the tables of the capabilities that it
-- imports and exports.
--
-- The files.
--   Prelude        numbers, byte strings, lists, maps, and `Result`, whose third case says that the code
--                  panicked; `?` is its bind. `Prelude/Outcomes` is about results without a panic.
--   Wire/Integer   crates/capnp-wire/src/integer.rs
--   Wire/Endian    crates/capnp-wire/src/endian.rs; a buffer that is written to is returned.
--   Wire/Segment   crates/capnp-wire/src/segment.rs
--   Wire/Pointer   crates/capnp-wire/src/pointer.rs; `RoundTrip` reads back what is built.
--   Io/Framing     crates/capnp-io/src/framing.rs: `Parse` is `parse_frame`, `Borrowed` is
--                  `parse_frame_into`, `Encode` the writers. `Layout` describes a frame apart from the
--                  code, `Reads` and `Checks` say what the parts of the parser and of the checks
--                  establish, `Prepared` and `RoundTrip` compare writers and parser.
--   Io/Packed      crates/capnp-io/src/packed.rs: `Pack` and `Unpack` are the functions of these
--                  names, `Decoder` is `PackedDecoder`. `Format` is the packed format word by word,
--                  with the run that is open, apart from any encoder; `Tags` is about tags and payloads;
--                  `Decoder/Meaning` says what a state makes of the input to come,
--                  and `Lanes`, `Complete`, `States`, `Rounds` and `Chunks` follow the loop.
--   Message/Budget crates/capnp-message/src/budget.rs: the budget is an interface, a record of its
--                  operations and laws, which the local and the shared budget fill; `SharedCharges`
--                  are the charges of all readers of a shared budget, one after another.
--   Message/Error, Segments, Validation, Limits, WorkItem and Walk
--                  crates/capnp-message/src/validation.rs: the types, `MessageSegments`, the resolution
--                  of a pointer, the readers that charge for it, and `walk_pointer_graph`. `Metered` is
--                  their monad: a computation takes a budget and returns the budget after it. Of the
--                  child modules, `Validation/Ranges` and `Bounds` say where a target lies, `Limits/Readers`
--                  and `Agreement` compare the readers, `ByteList`, `ByteRange` and `Shortcut` are
--                  about the shortcut for byte lists, and `Walk/Spent`, `Items`, `Paid` and `Accounts`
--                  follow the walk.
--   Rpc/Capability crates/capnp-rpc-core/src/capability.rs: the tables; `Exports` and `Imports` are the
--                  operations, with `Payload` for `describe_all_with_resources` and `Implicit` for the
--                  implicit releases; `Numbers` is about the search for a free number, `Valid`,
--                  `Follows`, `Described`, `Operations` and `Composed` about the invariants;
--                  `Reached` has the operations as steps, with the numbers that released promises
--                  left, and `Transaction` and `Delivered` are about whole payloads.
--   The `Tests` of each part run the theorems at concrete inputs.
--
-- Correspondence. Names are the source's. A slice is a list of numbers, and where a theorem needs them
-- to be bytes it says so. `usize` has 64 bits. Sums that the source checks are checked against that
-- width; sums that it leaves unchecked are plain, and their operands are bounded by an earlier check, by
-- the width of the fields or by the length of a slice. `as` casts and shifts keep their remainder. A
-- cursor into an input is what the cursor has not passed. An `expect`, an index or a slice that can fail
-- is `panic`. An atomic update is one step. A `BTreeMap` is the list of its entries in ascending order;
-- where the source only looks a key up, it is a function. An `Arc` that is compared by its pointer is
-- the number that identifies it.
--
-- Loops. A loop over a list, a table or lanes is structural recursion. `while offset < len` has the
-- number of words or bytes as fuel: each round takes one at least, and running out is `panic`, so a
-- theorem that gives `ok` or an error says that it does not happen. The decoder's loop has twice the
-- bytes and one, since a round may only end a word or a run. The walk over the pointer graph has two
-- turns for each word of the budget and two more: every pointer that is pushed was paid for by a word.
-- The search for a free number has 2 ^ 32 turns, one for each `u32`.
--
-- Not modelled: capacities and reservations, debug assertions, the text of errors, memory orderings,
-- floats (a bit copy of the unsigned accessors), the mutable word iterator, the incremental encoder
-- `PackedEncoder`, the allocation of identities and the byte charge of a resource in crates/capnp-rpc-core,
-- and crates/capnp-io/src/std_io.rs. The typed readers and the builders of crates/capnp-message, the
-- connection actor, the RPC runtime, the schema crates, the compiler and code generator, the text formats
-- and the adapters are not reached.
pub mod Prelude
pub mod Wire
pub mod Io
pub mod Message
pub mod Rpc
