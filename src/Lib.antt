-- ===== src/Lib.antt =====
-- A model of libcsics, the C++ library for simulation and control systems, and what holds of it.
--
-- The parts that are modelled, and how they are put together:
--
-- - Base: the names that every file shares. Base/Tests has the Boolean tests on numbers, Base/Lists
--   the list operations over native numbers, Base/Size the arithmetic of a 64-bit `size_t`, and
--   Base/Tables checks a table entry by entry. Base/Digits is bit_or digit by digit.
-- - Wire: include/csics/Bit.hpp (byteswap, endian) and
--   include/csics/serialization/DirectSerializer.hpp. `le_bytes` is an object in memory, `be` what
--   a `be<T>` is written as; `write`, `read` and `skip` are the calls of the two classes, `emit` is a
--   row of writes whose statuses are dropped. Wire/Bytes is about byte order, Wire/Reads about readers
--   that run on what was written, Wire/Writes about the room of a view, and Wire/Exact about readers
--   that take a fixed number of bytes.
-- - Dis: include/csics/lvc/dis. Dis/Pdus has the records of PDUs.hpp; Dis/Encode and Dis/Decode are
--   serde.hpp, `serialize_wire` as the row of pieces that it writes and `deserialize_direct` as a
--   reader, and Dis/Radio is the radio type in both versions of the protocol; Dis/RoundTrip,
--   Dis/Sizes, Dis/Codec and Dis/DeadReckoning are the theorems on them. Dis/Dispatch is the
--   dispatcher of DISDispatch.hpp, whose handlers act on a state of the program, and
--   Dis/Dispatch/Route is about the handler that a serialized PDU is given to.
-- - Json: src/serialization/JSONSerializer.cpp and include/csics/serialization/Serializer.hpp.
--   Json/Sink is the stack of the serializer and the view it writes to, with the escapes; Json/Write
--   has its calls and `apply` over a value, a tree of classes, ranges, maps and primitives. Json/Text
--   is the JSON of a value, written independently of the calls; Json/Text/Emit, Json/Text/Rows and
--   Json/Text/Serialize compare the two, Json/Strings has a reader of JSON strings, and Json/Failures
--   is about statuses.
-- - Base64: src/io/encdec/Base64Encoder.cpp, the streaming encoder. Base64/Standard is base64 as
--   RFC 4648 has it, written independently; Base64/Chars, Base64/Encode, Base64/Stream and
--   Base64/Limits relate the two.
-- - Queue: src/queue/SPSCQueue.cpp and include/csics/queue. Queue/Memory is the byte buffer,
--   Queue/Spsc the queue of slots, Queue/Message the queue of messages over it; Queue/Message/Fifo
--   compares that queue with a bounded first-in-first-out queue, one call after the other.
--   Queue/Threads splits the calls at the loads and stores of the indices and interleaves the steps
--   of a writer and a reader: Queue/Threads/Invariant is what holds between steps, Queue/Threads/Grants,
--   Queue/Threads/Writer and Queue/Threads/Reader that each step keeps it, Queue/Threads/Order and
--   Queue/Threads/Progress what follows. Queue/Spsc/PowerOfTwo is about the
--   capacity of a new queue, Queue/Spsc/Overrun and Queue/Spsc/Uncommitted are about
--   messages that go to the start of the buffer.
-- - Ecs: include/csics/sim/ecs/SparseSet.hpp, the components of entities by id. Ecs/SparseSet has the
--   operations, Ecs/SparseSet/Slots the buffers as lists, Ecs/SparseSet/Invariant and
--   Ecs/SparseSet/Removal the well-formed sets, Ecs/SparseSet/Lookup and Ecs/SparseSet/Remove the set
--   as a map, and Ecs/SparseSet/Generations what `at` makes of the entity's generation.
--   Ecs/World is the bookkeeping of entities in include/csics/sim/ecs/World.hpp, Ecs/World/Handles
--   is about the handles that it gives out, and Ecs/World/Invariant about the ids in it. Ecs/View is
--   the iterator of include/csics/sim/ecs/View.hpp, and Ecs/View/Visits the entities that it visits.
--   Ecs/StaticWorld is the whole of World.hpp but its builder: the component sets, the contexts, and
--   `run` over layers of systems, each given by the calls that it makes. Ecs/StaticWorld/Model is the
--   world as maps from ids, Ecs/StaticWorld/Deferred what the contexts put off against it, and
--   Ecs/StaticWorld/Runs, Ecs/StaticWorld/Dead and Ecs/StaticWorld/Reborn are about runs of layers,
--   entities that are destroyed, and ids that are given out again.
--
-- - Buffer: include/csics/Buffer.hpp. Buffer/Views is the views, a pointer and a size, and
--   Buffer/Views/Inside where they lie; Buffer/Capacity the capacity policies; Buffer/Cells the loops
--   over cells; Buffer/Store the growing buffer, Buffer/Store/Contents the elements after each
--   operation, and Buffer/Store/Steps and Buffer/Store/Runs the buffer against a list. The other parts
--   use lists in place of buffers.
-- - Linalg: include/csics/linalg. Linalg/Matrix is the operations of Matrix.hpp on the array of a
--   matrix, its dimensions as arguments; Linalg/Matrix/Cells and Linalg/Matrix/Rows are about the
--   cells that its loops write, Linalg/Matrix/Laws and Linalg/Matrix/Linear about the product.
--   Linalg/Complex is the arithmetic of Complex.hpp and the parts of Ops.hpp on complex numbers,
--   which are scalars themselves. Linalg/Scalar is what a scalar has to be, and integers are.
-- - Net: Net/Uri is `URI::from` of include/csics/io/net/NetTypes.hpp, a loop over the bytes with a state;
--   Net/Uri/Scan is about this loop, Net/Uri/Parts about texts that are put together from the parts of
--   a URI, and Net/Uri/Errors about others. Views are offsets and sizes, inside the text or not.
-- - Ranges: `Range` of include/csics/Types.hpp for a 64-bit unsigned number.
--
-- Conventions. Numbers are native naturals; an integer of w bits wraps by `% 2 ^ w` where the source
-- can wrap. A float or a double is the number of its bit pattern. A byte buffer is a list, or in the
-- queue a function of the offset. Every loop is structural recursion but the one over a
-- view, which runs on fuel: one step for each entity of the smallest set is enough. Undefined behaviour
-- and failed assertions of a debug build are `none` in Buffer, Json, Ecs and Dis/Dispatch. The host is
-- little-endian with a 64-bit `size_t`.
--
-- What the source calls and does not define is a parameter: the rounding functions of the standard
-- library (`Rounding`), the formats of numbers (`Formats`), `std::stoi`, what an allocation holds (`Allocator`, or
-- the bytes of a new queue), the handlers of a dispatcher, the systems and hooks of a world, and the
-- arithmetic of the elements of a matrix (`Scalar`), which is exact: it neither rounds nor overflows.
--
-- Not modelled: the TransmitterPDU, whose writer calls overloads that do not exist; the network
-- endpoints, compressors and radios, which call libraries outside the repository; the floating-point
-- mathematics of coordinates, geo, dsp and em; the executors, of which a world uses the one that runs a
-- system when it is submitted; strings; the builder of a world; the loop over the steps of a range,
-- which does not compile; buffers of elements whose constructors and destructors have effects. The
-- steps of the two threads of a queue are whole calls of the rest of `acquire_write` and `acquire_read` behind their
-- loads; with padding these store an index in the middle, and the theorems on threads are about
-- messages that need none.
pub mod Base
pub mod Wire
pub mod Dis
pub mod Base64
pub mod Queue
pub mod Ranges
pub mod Json
pub mod Ecs
pub mod Linalg
pub mod Net
pub mod Buffer
