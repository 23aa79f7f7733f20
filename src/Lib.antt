-- ===== src/Lib.antt =====
-- A model of fode-hpc-wflop's FODE wind-farm layout optimizer, of the generator, the evaluator and the
-- programs around it, of the ISE optimizer and of the layouts, the ranking and the cables of the
-- GGA program, with the theorems that make them correct.
--
-- The program places turbines on the cells of a grid so that the expected power of the farm is
-- large. A case (hpc/fode_cpp/include/fode/case.hpp) has the grid, the wind and the cells that may
-- not be used. `optimize_fode_hpc` keeps a population of layouts, each a row of doubles that hold
-- one-based cell numbers; in a round it samples parameters, builds a trial vector for each layout,
-- repairs the trials into feasible layouts, evaluates them, accepts the better ones, adapts its
-- memory, reduces the population and at times searches around the best layout. All random draws
-- come from a generator that is keyed by the logical draw, so that threads do not change a result.
-- The optimizers of hpc/wflop_cpp share a ledger of evaluations, an initial population and a repair.
-- The GGA program, hpc/gga_cpp, places turbines on a list of candidate sites and trades their energy
-- for the cost of the cables that join them to a substation.
--
-- Files:
--   Base.antt and below   lists, integers, results, bit operations, the stable sort
--   Double.antt           the interface of IEEE doubles: a parameter of the model. Laws.antt has what
--                         the theorems use of them, Whole.antt an instance that computes
--   Case.antt             CaseData of hpc/fode_cpp/include/fode/case.hpp
--   Rng.antt              CounterRng of hpc/fode_cpp/include/fode/rng.hpp; Rng/Generator.antt is the
--                         interface that the optimizer takes
--   Farm.antt             hpc/fode_cpp/src/evaluator.cpp: Wake has interaction_area, deficiency and
--                         turbine_power, Fused evaluate_fused_states, Evaluate
--                         evaluate_population_hpc
--   Fode.antt             hpc/fode_cpp/src/optimizer.cpp: Phase has RandomPhase; Grid, Initialize,
--                         Repair, Archive and Survivors the functions before optimize_fode_hpc;
--                         State, Sample, Trial, Accept and Generation its loop, stage by stage;
--                         Optimize the start, the loop and the result
--   Wflop.antt            Registry has hpc/wflop_cpp/src/registry.cpp, Dispatch `optimize` of
--                         hpc/wflop_cpp/src/algorithms.cpp up to the optimizer that it calls,
--                         Runtime the ledger of evaluations that the other optimizers share,
--                         Population their initial population and repair, Finish their
--                         finish_result, Ise optimize_ise
--   Gga.antt              hpc/gga_cpp/src/main.cpp: Layout has random_layout,
--                         random_ordered_layout, repair and repair_ordered, Ranking bi_dominates,
--                         bi_rank_and_crowding and bi_tournament, Cables group_tree
--   Loader.antt           the checks of parse_case in hpc/fode_cpp/src/case_loader.cpp
--   Executor.antt         hpc/fode_cpp/src/executor.cpp: the owner and the workers of a
--                         PersistentExecutor, one shared access at a time, in any order. The
--                         accesses are sequentially consistent: the relaxed and the acquire and
--                         release orders of the source are not told apart. A worker that is
--                         blocked in `epoch_.wait` moves no more until a `notify_all`
--   Farm/Staged.antt      its staged schedule, with the tasks of a stage in any order
--   Farm/Detail.antt      the per-turbine detail of hpc/fode_cpp/src/evaluator.cpp
--   Text.antt             texts as lists of characters
--   Loader/Json, Cases    the JSON reader and load_cases of hpc/fode_cpp/src/case_loader.cpp, on
--                         the text from a position on; strtod and the file are parameters
--   Wflop/Arguments, Report, Validate, Run
--                         parse_arguments, to_json, validate_result and the runs of main in
--                         hpc/wflop_cpp/src/main.cpp; stoull, the printing of numbers and the
--                         clock are parameters
--
-- Conventions. A flat row-major vector is the list of its rows. A parallel stage is the list of its
-- tasks in the order of the index, since the tasks of each stage write different places and read
-- nothing that the stage writes; Farm/Staged keeps the flat arrays and the order of the tasks. An
-- exception is the `err` of a Result, with the source's message. The numbers that `load_case` admits
-- as positive ints are natural numbers, and so are the sites and the counts of the GGA program; a
-- layout that it repairs holds ints. The generator's double is its numerator over 2 ^ 53. A
-- runtime observes the workers that are requested, which is what its executor has.
--
-- Fuel. The filling loop of the repair has fuel for all values of its uint64 count of draws, for each
-- turbine: in each such stretch a draw passes the source's limit of 10000 draws for each cell, an int
-- product that wraps in two's complement where it overflows, and then a cell is taken without a draw.
-- The rejection loops of the sampling, the filling loop of the other optimizers' repair and the drawing loops of the GGA
-- program's repairs have a number of rounds as a parameter, since nothing bounds them in the program.
-- The main loops of FODE and of ISE have the budget of evaluations as fuel, each round spends at
-- least one. The loop over the fronts has the number of layouts as fuel, each front but the first
-- ranks at least one. The rounds are enough for a generator whose draws reach, within them, what the
-- loop waits for.
--
-- An admitted case (IsCase), which the loader's checks make sure of, has a grid that fits an int, a
-- turbine at least, unavailable cells on the grid, and room for the turbines beside as many cells as
-- are listed as unavailable.
--
-- Not modelled: clocks and profiling, the exceptions that a task throws, reading and writing of files
-- and streams, hpc/fode_cpp/src/main.cpp and the self check; of hpc/wflop_cpp/src/algorithms.cpp the
-- sixteen optimizers besides FODE and ISE; of hpc/gga_cpp/src/main.cpp the case reader, the prices of
-- cables, the evaluation, the loops of the optimizers and the output; hpc/pbea_cpp/src/main.cpp.
pub mod Base
pub mod Double
pub mod Case
pub mod Rng
pub mod Farm
pub mod Fode
pub mod Wflop
pub mod Text
pub mod Loader
pub mod Executor
pub mod Gga
