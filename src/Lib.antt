-- ===== src/Lib.antt =====
-- Hammer, a library of parser combinators for binary formats (src/ of the repository).
--
-- A parser is an object with a table of functions (src/internal.h) and an environment. The packrat
-- backend (src/backends/packrat.c) runs one through its `parse` function, which reads bits from an
-- input stream (src/bitreader.c), calls h_do_parse for the parsers that it is made of, and returns a
-- result or NULL. h_do_parse keeps a cache from pairs of a position and a parser to results, and uses
-- it to let left recursions grow.
--
-- Prelude: names, Boolean tests, lists over the native numbers, bits of numbers.
-- BitReader: h_read_bits of src/bitreader.c and HInputStream of src/internal.h. Children: Pending
--   (the bits that a stream still has), Cut, Loops, Bytes, Counts, Finish (the parts of the proof),
--   Laws and Reads (what a read is).
-- BitWriter: src/bitwriter.c, with alloc and realloc as parameters, and the test of
--   src/t_bitwriter.c. Children: Digits (a number as bits), Content (the bits that a writer holds),
--   Step, Put, Reserve (the parts of h_bit_writer_put), Laws, ReadBack and RoundTrip.
-- SparseArray: HSArray of src/internal.h, over nodes that are never initialised. Children: Fields,
--   Entries (the parts of the proofs), Represents (the list of entries that an array stands for),
--   Laws, and Foreach (the loop macro).
-- Charset: the sets of characters of src/internal.h, and those that src/parsers/charset.c fills.
-- Syntax: HParsedToken and HParseResult of src/hammer.h, and the parsers: one constructor for each
--   vtable, with the environment as its fields. A parser is an address in a `Heap`.
-- State: HParseState of src/internal.h, the outcomes of a run, and the monad of runs. Objects that C
--   shares and changes in place are in stores, and a pointer is a position in one. State/Keeps is a
--   Hoare logic for `no read outside the input, all streams valid`.
-- Parsers: the parse functions of src/parsers/, each over the function `run` that stands for
--   h_do_parse: Primitive (nothing, epsilon, end, unimplemented, ch, charset, bits, token,
--   whitespace), Sequence (sequence, ignoreseq, choice, optional, ignore, and, not, indirect,
--   endianness), Many, Permutation, Compare (butnot, difference, xor), Values (int_range, attr_bool,
--   action, value, bind). Each has a child Sound; Sequence, Many, Compare and Values have their laws below
--   them.
-- Packrat: src/backends/packrat.c, with Dispatch (the call through the vtable), Stores and Sound
--   (safety), Overrun and Memo (the cache).
-- Constructors: the functions that make parsers (h_token, h_many and the others), over a list of the
--   objects made. Skipping has what h_left, h_right and h_middle parse.
-- Regex: the thread machine of src/backends/regex.c, h_rvm_run__m up to `match_fail`. Children:
--   Marks and Threads (what bounds the loop over the threads), Rounds, Runs, Positions (one
--   instruction, the threads of a position, all positions), and Reaches (what a program may do, as
--   a relation). Program, Compile and Backend have the compilation: the functions that build a
--   program, the compile_to_rvm and the isValidRegular of every vtable, and h_regex_compile; Holes
--   and Continues follow the jumps that a part of a compilation leaves open, Compiled and Composed
--   do so for each parser, and Closed for h_regex_compile. Stack has the actions on the stack that
--   regex.c itself defines.
--
-- Numbers are natural numbers: an int64_t or uint64_t is its bit pattern below 2 ^ 64, and a size_t
-- difference wraps. `fault` is a read outside the input, a shift by a negative amount or of an
-- int64_t by 64 or more, or a call of isspace with a negative number other than EOF (a char is
-- signed), `halted` an assertion, an exit or a NULL pointer, and `out_of_fuel` a run that has not
-- ended. h_do_parse takes fuel for the depth of its calls, for the rounds of a repetition and for
-- the rounds of a left recursion that grows; C has no bound for these, and runs that never end
-- exist there too (a repetition of an empty parser). The loops of h_read_bits, of the bit writer,
-- of the regex VM and of parse_permutation, and the skipping of white space, get as many rounds as
-- they can need from their own arguments. All streams have fewer than 2 ^ 31 bytes, since C casts
-- the number of bytes left to int. A shift into the sign bit of an int64_t wraps, as the compilers
-- define it. The compilation to the regex VM takes fuel for the depth of the grammar, which C does
-- not bound; memory for the program's arrays is never short in it.
--
-- Not modelled: memory (arenas, allocation failures), the hash tables behind the cache, which are
-- association lists here, the stack machine of the regex backend (run_trace and the actions of the
-- parsers), the other backends (LL, LR, GLR), desugaring and compilation to those, printing, and
-- bindings.
pub mod Prelude
pub mod BitReader
pub mod BitWriter
pub mod SparseArray
pub mod Charset
pub mod Syntax
pub mod State
pub mod Parsers
pub mod Packrat
pub mod Constructors
pub mod Regex
