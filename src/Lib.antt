-- ===== src/Lib.antt =====
-- A model of mlir-backend, which reads programs in the GPU representation of the Futhark compiler and
-- lowers them to MLIR, with the theorems on its parser and its compiler.
--
-- The parts, and how they work together:
--   * Prelude: lists and tests on native numbers, strings as lists of codes, and results. A
--     constructor of `Error` stands for each exception of the code.
--   * Word: fixed-width integers as bit patterns.
--   * Ir (mlir-backend/ir/primitive.hpp, core.hpp, gpu.hpp, syntax.hpp, segop.hpp): the program as
--     data. Statements, bodies, expressions and kernels are one block of types, in which a list of
--     a type of the block is a type of its own.
--   * Parser (Futhark.g4, mlir-backend/ir/parser.hpp): Tree is the parse tree, with a constructor for
--     each labelled alternative of a rule; Numbers, Values, Operators, BasicOps and Visit hold the
--     visitor, a function `visit_x` for each method VisitX, and `visit_prog` for VisitProg.
--   * Compiler (mlir-backend/compiler.hpp, blackbox.hpp, and the loop of main): Monad and State are
--     actions on the compiler's state: the context `Ctx::subexps`, the memo `functions`, the
--     module, and a log of the calls that went to MLIR, which is the model's own. Mlir has the
--     types, attributes and operations that the code builds, and the record of parameters that
--     stands for MLIR itself. Env, Types, Values, Scalars, Tensors, Blackboxes, Kernels, Scans,
--     Loops, Lower and Functions hold a function `lower_x` for each method LowerX. What calls back
--     (the body of a kernel or of a loop, a lambda, a function that is called) is an argument of
--     what contains it.
--   * Compiler/Nesting: the regions that the builder stands in, innermost first, and what each call
--     to MLIR may do to them, as a step relation: this is what MLIR asks of the code, and the code
--     has no such check. Compiler/Keeps: the rules by which an action keeps an invariant that
--     speaks of the regions and of the state, for every operation of the compiler. Compiler/Missing
--     and Compiler/Termination: the functions without an entry in the memo, which bound the depth
--     of calls, and what holds at the end of a program. Compiler/Completeness and
--     Compiler/Creations are about the functions that are created, Compiler/Definition is a
--     function's own lowering, Compiler/Idempotence a second one, and Compiler/Callees the functions
--     that are called. Compiler/Scope: the context after a kernel or a loop.
--   * Compiler/Refinement: bodies of integer scalars and conditionals. Words has the arithmetic of
--     fixed-width patterns, Source what such a body means in Futhark, and Target what MLIR documents
--     of the operations that it is lowered to, as the record `Semantics` of hypotheses on the
--     parameter `Mlir`; Simulation relates the two. A name is bound once, and an operand that is
--     converted becomes wider, as MLIR's extensions ask. Of the functions that a body calls, the
--     primitive ones that select a value are among these scalars. Floats, arrays, loops and calls of
--     the program's functions lie outside.
--   * Main (mlir-backend/mlir-backend.cpp): `main` from the parse tree on; Main/Composition joins the
--     parser and the compiler, and Main/Scalars is `main` on files of scalar functions.
--   * Tests: two small instances of MLIR, one whose values are their types and one whose values carry
--     their bits, and runs at concrete inputs.
--
-- Fuel: `lower_function` recurses on the depth of calls. `lower_program` gives as much as the program
-- has functions, and one: a function is entered in the memo before its body is lowered, so each call
-- that goes deeper meets a function that was missing. `out_of_fuel` is kept apart from what throws.
--
-- Not modelled: the lexer and the parser that ANTLR generates from Futhark.g4, so that theorems start
-- from a parse tree; MLIR's and IREE's own behaviour; conversions of floats, which are the record
-- `FloatOps`; debug.hpp; in main, the choice of the path, the printing of the module, and what MLIR's
-- verifier accepts, which is a parameter; the build files and the test runner. Undefined behaviour
-- of C++ is the error `undefined_behaviour`.
pub mod Prelude
pub mod Word
pub mod Ir
pub mod Parser
pub mod Compiler
pub mod Main
pub mod Tests
