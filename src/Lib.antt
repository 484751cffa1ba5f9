-- ===== src/Lib.antt =====
-- slabjson: a JSON document library that keeps a whole document in one buffer of at most 65535 bytes.
--
-- The parts of the program, and the files that model them.
--
-- - include/slabjson/detail/utf8.hpp, the check of UTF-8 texts: Utf8. The proofs stand below it:
--   Utf8/Encoding is the independent description, Utf8/Sequence treats one sequence, Utf8/Validation
--   the whole text.
-- - include/slabjson/error.hpp and include/slabjson/result.hpp: Error and Result. A fallible function
--   returns a `Result`; one that also changes a state `S` is an `Op S`.
-- - include/slabjson/slab.hpp and src/slab.cpp: Slab/Data holds the types, Slab/Memory the storage with its
--   nodes and strings, Slab/Make the handles and the `make_` functions (`make_number` has an overload for each of
--   `make_int64`, `make_uint64` and `make_double`), Slab/Attach the attachment of a child. Space holds
--   the proofs on the bounds: Space/Bounds the invariant, Space/Growth what stays, Space/Allocate and
--   Space/Make what each function does on every branch.
-- - include/slabjson/value.hpp and src/value.cpp: Value.
-- - src/detail/container_builder.hpp, and what src/array.cpp and src/object.cpp share but for the type
--   of the container: Container. The classes `Value`, `Array`, `Object` and the two iterators have the
--   same three fields, so one record `Handle` stands for them.
-- - include/slabjson/containers.hpp with src/array.cpp and src/object.cpp: Array and Object.
-- - src/serialize.cpp: Serialize. Serialize/Writers holds the three writers, Serialize/Text the texts of
--   strings and numbers, Serialize/Graph the walk over the nodes, and Serialize the six functions of
--   include/slabjson/serialize.hpp. `append` of a character and of a text are two operations.
--   Serialize/Emits is the contract of a writer, which the walk is proved against (Serialize/Texts,
--   Steps, Moves, Run, Rounds and Write) and which the three writers keep (Serialize/Instances).
-- - src/parse.cpp and include/slabjson/parse.hpp: Parse. Parse/Strings holds the scan and the decoding of
--   strings, Parse/Numbers the scan and the conversion of numbers, Parse/Values the parser's state and the
--   values, and Parse the whole run. One round of the scan of a string is `scan_piece`, one of the
--   decoding `decode_piece`; the two are held against each other (Parse/Helpers, Escapes, Pieces, Scan and Text).
--   The proofs on the values follow the document through the parse: Parse/Positions, Stops and Digits say how the
--   position moves, Parsed, Scalars and Texts what a value adds, Open, Arrays and Objects what an open
--   container holds, and Whole and Document put them together.
--   The arrays' and the objects' functions share their start, `parse_container`, and what stands behind
--   a child, `next_entry`.
-- - Json is the description of a document's value and of its text, with its own letters, escapes and digits; Json/Denotes reads the value off the
--   nodes. The functions of src/serialize.cpp are held against it (Serialize/Output).
--
-- How they interact. A handle holds the address of its slab, a node number and a generation. A
-- container's method finds the node by `node_for`, and changes the slab through its friend functions.
-- The functions here take the slab that the handle's address designates as an argument and return the
-- changed one; the address is compared, with null and with the address of a slab, where the source
-- compares it.
--
-- The abstract view. Forest describes the nodes of a slab as a forest: `Kids` lists the children of
-- each node in order, and `IsForest` says that the links `parent`, `first_child`, `last_child` and
-- `next_sibling` are one representation of it. Document adds the bounds of the storage and the payload
-- of each node: `IsDocument` is the invariant of a slab in use. The operations are described on the
-- lists of children.
--
-- Numbers. Machine integers are natural numbers with the wrap-around of their width written out.
-- `std::size_t` has 64 bits, a node 24 bytes with an alignment of 8. A signed integer is an integer and
-- a double is its 64-bit pattern, of which only the exponent is read. Bytes are numbers, which the
-- model does not bound.
--
-- The text of a double is that of `std::to_chars`, an argument of the model, and the double of a text
-- that of `std::from_chars`, another one. A span of characters is its
-- address, its size and a map for its memory, which is the slab's storage only if `overlaps_slab` says
-- so.
--
-- Loops. A walk along siblings or parents runs on `node_count + 1` rounds: a list of children and a
-- path to a root have no more steps than there are nodes (Prelude/Walk), so the bound is never met in
-- a document. `Array::at` runs on its index. The loops of the UTF-8 check run on the length of the
-- text. `Serializer::write` runs on `2 * node_count` rounds, one for each time that a node is come to and
-- one for each time that it is left (Serialize/Rounds). The loops of the parser run on the size of the input, or on
-- that and one, since each round moves the position; `parse_value` runs on `max_depth + 1` levels. A loop
-- over items, members or the characters of a string that ran out of rounds would return `internal_error`,
-- which the parser's code never does; those over white space, over digits and over the string to decode
-- would return what they have (Parse/Stops and Parse/Scan show that they come to their end).
--
-- What is not modelled: src/cjson_compat.cpp; the storage
-- management of `Result`; the casts from integers to double, which are arguments of `as_number`; two
-- handles that share an address with a destroyed slab.
pub mod Prelude
pub mod Error
pub mod Result
pub mod Utf8
pub mod Slab
pub mod Space
pub mod Value
pub mod Container
pub mod Forest
pub mod Document
pub mod Array
pub mod Object
pub mod Serialize
pub mod Json
pub mod Parse
pub mod Tests
