-- ===== src/Lib.antt =====
-- Aphros: the configuration language, the command line, the index arithmetic and the halo cells of
-- the solver, with their correctness.
--
-- A run of Aphros is configured by text files of commands. `Parser` (src/parse/parser.cpp) reads
-- them line by line, expands variables and arithmetic expressions, and fills the typed variables of
-- `Vars` (src/parse/vars.cpp). Lists of named blocks come from src/parse/codeblocks.cpp. The mesh
-- numbers its cells, faces and nodes by multi-indices (src/geom/vect.h, src/geom/block.h). It is
-- divided into blocks, and CommManager (src/distr/comm_manager_seq.ipp) lists the cells that a block
-- needs from the others. ArgumentParser (src/parse/argparse.cpp) reads the command line of the tools.
--
-- Files:
--   Base: shared types. `Base.Machine` runs loops written as a step function on a state with a
--     measure that falls, `Base.Int` is the integers, `Base.Results` the errors.
--   Parse.Text: Strip, RemoveComment, IsNameChar and reads of words and lines.
--   Parse.KeyMap: std::map with text keys, as an association list in ascending order.
--   Parse.Number: `int` on string streams, within 32 bits, and the interface of `double`.
--   Parse.Vars: Vars and Vars::Map; `set_str` is Vars::SetStr, `get_str` is Vars::GetStr, `del` is
--     Vars::Del, `get_type_name` is Vars::GetTypeName.
--   Parse.Expand, Parse.Evaluate: the state machines of ExpandVariables and EvalExpressions; `step`
--     is one round of the loop, the index `i` into the text is the text that is left.
--   Parse.Stream: ReadMultiline on a stream of text that is left and a flag.
--   Parse.Commands: Parser::Imp::Cmd (`cmd`), CmdSet, CmdSetNext, CmdDel, CmdInclude, ParseStream,
--     ParseFile, PrintMap and PrintVars.
--   Parse.CodeBlocks: ParseCodeBlock and ParseCodeBlocks.
--   Geom.Vect, Geom.Index, Geom.Block: multi-indices, GIndex, and GBlock with its iterator.
--   Distr.Halos: CommManager on one rank (src/distr/comm_manager_seq.ipp, src/distr/comm_manager.h).
--   Parse.EvalExpr: EvalExpr (src/parse/evalexpr.cpp); `eval` is Eval, with the text between the
--     iterators and the character before it. Parse.EvalExpr.Syntax: expressions as trees.
--   Parse.Arguments, Parse.Arguments.Read, Parse.Arguments.Help: ArgumentParser
--     (src/parse/argparse.cpp): its declarations, ParseArgs and PrintHelp.
--   Geom.Face, Geom.FaceBlock: GIndex<IdxFace> and GBlock<IdxFace> (src/geom/blockface.h).
--   Geom.RangeMulti: the iterator of RangeMulti (src/geom/rangemulti.h).
--   Parse.Template: SubstituteTemplate and ParseTemplate (src/parse/template.cpp).
--   Util.Suspender: Suspender (src/util/suspender.cpp), functions in stages. The list of levels with
--     its iterator is a zipper; a call is `new_sem`, the stages, and `destroy`.
--   Util.Format: ParseFormat (src/util/format.cpp). Util.Allocator: FixedAllocator
--     (src/util/fixed_allocator.h), where the addresses of new pools are arguments.
--   Solver.Images: Pack and Unpack of src/solver/trackerm.h.
--   Tests: runs at concrete inputs.
--
-- Text is a list of character codes. An exception is an error value; the wording of messages is
-- left out. An operation that C++ leaves undefined is the error `undefined` where a text or an
-- iterator can lead to it. A failed command gives the variables as they were when it threw.
--
-- Parameters, in the records StreamNumber, Arithmetic and Environment: `double` with its stream
-- operators, of which a successful read takes at least one character; which operand of an operation
-- the compiler evaluates first; EvalExpr together with the print of its value, as the parser calls
-- it; the contents of files, directories and dirname; the value of a `char` that is never written.
--
-- Bounds and fuel: `int` is bounded by 2^31 where text is read and in RangeMulti; `size_t` is taken
-- modulo 2^64 in GetIdx, in the sizes and in RangeMulti. A product of sizes below 2^63 is asked for
-- where size() is read, since it is computed in `ptrdiff_t`. Positions are integers without a bound,
-- where `ptrdiff_t` would overflow. The machines of Expand, Evaluate and Format run on five, four
-- and two rounds for each character and two more, which is enough by their measures. ParseTemplate
-- takes a character of the template in each round. Vectors of numbers and lines of a stream are read
-- on the length of the text, since each read shortens it. Nested commands (eval and include) run on
-- a depth given by the caller, since a file may include itself without end. EvalExpr runs its nested
-- calls and each search on the number of characters, since each call takes a shorter text.
--
-- Not modelled: the floating-point solvers, distributed communication, input and output of fields,
-- and the copies of other projects' libraries.
pub mod Base
pub mod Parse
pub mod Geom
pub mod Distr
pub mod Util
pub mod Solver
mod Tests
