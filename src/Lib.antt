-- ===== src/Lib.antt =====
-- Verification library of Polymalys, a static analyser that describes the states of a binary program
-- by convex polyhedra and finds loop bounds.
--
-- The program's parts and the files that model them:
--   include/PolyWrap.h and poly_PolyWrap.cpp wrap the Parma Polyhedra Library. Linear.antt has
--     WLinExpr, WCons and their operators; WPoly.antt has WPoly, a polyhedron whose dimensions are
--     named by the guids of variables; WPoly/Combine.antt has combine, intersection and hull.
--     WPoly/Drop has the proofs on unconstrain and filter_lambda, WPoly/Matching those on combine.
--     The library itself is the parameter Ppl (Ppl.antt): its types, the methods that are called, and
--     what its manual says of them on points with integer coordinates. Ppl/Syntactic.antt is a small
--     concrete instance, on which the tests run.
--   include/MyHTable.h, the hash table of the analysis, is MyHTable.antt.
--   include/PPLDomain.h and poly_PPLDomain.cpp have the abstract state. Ident.antt has the
--     identifiers (registers, memory, loops) and their hash functions; Mapping.antt has the class
--     Mapping, from identifiers to variables and back; PplDomain.antt has the state PPLDomain and the
--     variables of identifiers; PplDomain/Loops.antt has onLoopEntry, onLoopIter and onLoopExit;
--     PplDomain/Transfer.antt has _doBinaryOp; PplDomain/Branch.antt has the filter of onBranch;
--     PplDomain/Memory.antt has the creation of memory variables, doFold and doExpand, the test of the
--     stack and clean-ups; PplDomain/Replace.antt has the replacement of memory variables, the entry
--     of a function and the tests of stack and segments; PplDomain/Leave.antt has the exit of a
--     function and doMapIdents; Euclid.antt has _euclid. PplDomain/OnSemInst.antt has onSemInst, with
--     its cases in SemInst.antt (registers), Load.antt, Store.antt and StoreNew.antt (memory);
--     PplDomain/Delta.antt has delta, mustSupseteq and the translation of PPL's constraints back;
--     PplDomain/Useless.antt has doRemoveUselessAvatars. PplDomain/SemRun.antt has the machine whose
--     runs the analysis follows.
--   include/OrderedDriver.h, a work list driver that keeps its list in an order of the blocks, is
--     OrderedDriver.antt; OrderedDriver/Waiting.antt has the loop of a client of the driver, which is
--     arbitrary. The analysis itself runs over the WorkListDriver of OTAWA.
--   poly_PolyAnalysis.cpp is the analysis of a task. PolyAnalysis.antt has PseudoTopoOrder, the order of
--     the blocks, PolyAnalysis/Context.antt the loop context in which conditions are recorded,
--     PolyAnalysis/Block.antt the update of a basic block and the states of its edges, and
--     PolyAnalysis/Header.antt processHeader, over the operations of PPLManager.
--   poly_PPLManager.cpp with include/PPLManager.h, PplManager.antt, builds the states that an analysis
--     starts from.
--   poly_LoopAnalyzer.cpp with include/LoopAnalyzer.h, LoopAnalyzer.antt, writes loop bounds that are
--     linear in the parameters of the task.
--   poly_BranchConditionner.cpp with include/BranchConditionner.h, and the second half of onBranch in
--     poly_PPLDomain.cpp, write the conditions of branches. BranchConditionner.antt has the texts and
--     the order of the file, BranchConditionner/Arguments.antt the argument registers.
-- A state holds a WPoly and a Mapping; an operation takes a new variable from the counter
-- WVar::_guid_generator, binds it in the Mapping, and adds constraints on it to the WPoly.
--
-- How the code is modelled: an operation is a function from the state to the new state, and the
-- counter of guids is passed along. `none` stands for a failed assertion, an exception or abort().
-- A std::map is an association list in the order of its keys (Common/StdMap.antt). The coefficients
-- of PPL are unbounded integers (Common/Int.antt); so are the C `int` values of _euclid and the
-- steps, while hashes, shifts and bounds kept in an `int` wrap around as written. What a WPoly
-- describes is a set of valuations, maps from guids to integers: `Models w ρ` says that some point
-- of the polyhedron has the value of every tracked variable at its dimension. The loop of _euclid
-- runs on fuel, the absolute value of its second operand, which falls in every round; the search
-- for a free depth in doEnterFunction runs on one more than the number of identifiers, of which
-- every round meets another one; and `next` of the driver on the length of its list; changeAll
-- takes fuel too, one more than the number of vertices.
--
-- The order of the blocks takes fuel above the length of a path without back edges and the depth of a
-- nest of loops. A text is the list of the pieces that the code appends to it, and its meaning is
-- given by a reader (LoopAnalyzer/Reader.antt, BranchConditionner/Reader.antt).
--
-- Not modelled: in poly_PolyAnalysis.cpp the calls of functions, the loop of processCFG over its
-- driver, and the output of bounds; the join, the widening and the comparison of PPLManager, which
-- processHeader takes as arguments; in poly_PPLDomain.cpp the projection before the conditions of a
-- branch are written, the merge of states and the summaries of functions; printing, and opening and
-- closing files; and the headers of OTAWA, ELM and PPL, which other projects maintain.
pub mod Common
pub mod Linear
pub mod Euclid
pub mod Ppl
pub mod WPoly
pub mod MyHTable
pub mod Ident
pub mod Mapping
pub mod PplDomain
pub mod Tests
pub mod BranchConditionner
pub mod LoopAnalyzer
pub mod OrderedDriver
pub mod PolyAnalysis
pub mod PplManager
