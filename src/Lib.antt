-- ===== src/Lib.antt =====
-- The waveform explorer (waveform_explorer/src), which answers questions about the waveforms of
-- a simulation, and the tracer (standalone_trace), which answers questions about the structure of a
-- design.
--
-- The programs. For the explorer, a file is read by a format adapter, chosen by its name
-- (FormatRegistry.cpp): the VCD reader (vcd/VcdAdapter.cpp), or the readers of FST and FSDB files.
-- The adapter fills two maps of the database (WaveDatabase.cpp): the signals by path, and the
-- transitions by identifier. Formats that load on demand fill the second when a signal is first
-- read. The API (AgentAPI.cpp) resolves paths in the database and answers queries: values at a time,
-- edges, intervals in which a value holds, counts, histories, and overviews made of segments.
-- The tracer compiles a design to a database file (compile/Compiler.cc, db/GraphDb.cc) and answers
-- queries on it (query/): the drivers and loads of a signal, signals by name, the tree of instances,
-- one instance. A query runs as a command of its own, or as a line of the serve loop
-- (serve/ServeLoop.cc), which keeps a database open.
--
-- The files.
--   Base              texts as lists of bytes, association lists, the scanning of words and numbers
--   Wave/Signal       FormatAdapter.h: the transition, the signal, a loaded adapter
--   Wave/Timeline     a vector of transitions with lower_bound and upper_bound
--   Wave/Registry     FormatRegistry.cpp: create
--   Wave/Database     WaveDatabase.cpp: the state, load, the resolution of paths, lazy loading, the
--                     reads. A method is an action WaveDatabase → Option (A × WaveDatabase), where
--                     none is a std::out_of_range that at() has thrown
--   Wave/Database/Paths  list_signal_paths_page
--   Wave/Vcd          VcdAdapter.cpp: Load, as a step of the reader on each line
--   Api/Values        the texts of values, and decimal digits to bits and back
--   Api/Format        format_multibit_value
--   Api/Query         normalize_query_value_to_bits and value_matches_query
--   Api/Overview      build_signal_overview_segments and choose_auto_resolution
--   Api/Reply         the replies of the handlers
--   Api/Edges         find_edge
--   Api/Intervals     find_value_intervals
--   Api/Condition     find_condition
--   Api/History       get_transitions, count_transitions, get_last_transition_time, values at a
--                     time, get_snapshot
--   Api/Arguments     JSON arguments that are a number or a text
--   Api/Summary       get_signal_overview
--   Api/Signals       list_signals, list_signals_page, get_signal_info
--   Api/Dump          dump_waveform_data: its checks and the lines that it writes
--   Trace/Distance    EditDistance and BoundedEditDistance of db/GraphDb.cc
--   Trace/Number      std::to_string and ParseUnsignedCliValue
--   Trace/Hier        query/HierQuery.cc; Trace/Hier/Instance: query/WhereIsQuery.cc
--   Trace/Cli         the arguments of hier, find and whereis-instance
--   Trace/Serve       serve/ServeLoop.cc: the splitting of a line, and the loop over the commands.
--                     What is written is a list of outputs, and the session is passed on
--   Trace/Publish     db/GraphPublication.h: the steps that put a new database in place of an old one,
--                     and the test whether a compilation can be left out. Compilations that fail or
--                     are stopped are a step relation (Trace/Publish/Reachable)
--   Trace/Endpoint    EndpointRecord and EndpointKey of db/GraphDb.cc
--   Trace/Dedup       db/EndpointDedup.h: the table of slots, and the removal of equal entries
--   Trace/Select      bit ranges, and the signal of a query with its selects
--   Trace/Overlap     the test of an endpoint against the selects of a query
--   Trace/TopK        db/ParallelTopK.h: the collectors of the workers, and the merge
--   Trace/Json        JsonEscape of db/GraphDb.cc
--   Trace/Find        query/FindQuery.cc: the literal that a pattern requires, the scan of the names,
--                     TopSuggestions, and what is printed
--   Trace/Query       query/TraceQuery.cc: its arguments (Args), the signal that a query names
--                     (Resolve), the search for its coordinates (Coordinates), the declared indexes
--                     of a bit (Rewrite), the checks on selects (Selects), and RunTraceWithSession
--                     (Run), which calls the traversal
--   Tests             small waveforms, designs and commands, and runs on them
-- A file below one of these holds lemmas about it.
--
-- Bounds and fuel. A uint64_t is a natural number; where the code adds to one, its wrap-around is
-- written out or the condition under which there is none is a hypothesis. The halving of a decimal
-- text runs on fuel for its digits, the sweep over a window on one more than its transitions, the
-- search for a resolution on 65 rounds, and the sampling of a window on two more than its length. A
-- function that runs out of fuel gives none, and the theorems on them show that it does not. The
-- recursion of the hierarchy query is on the levels that the depth limit leaves. A search in the
-- table of slots has fuel for all slots, and the binary search for coordinates for all rows.
--
-- Not modelled. The readers of FST and FSDB files call libraries that are not of this program: they
-- are fields of the record Formats, and a lazy adapter has what FormatAdapter.h says of it (IsLazy).
-- std::regex is the record Regexes. The files that a dump is written to are left out.
-- An unordered map is visited in the order of its association list. The opening of files, JSON and the
-- command loop are input and output. analyze_pattern works with floating point numbers.
-- Of the tracer, the compiler and the database file are not modelled, nor the traversal of the trace
-- query, which is an argument of RunTraceWithSession. The serve loop has the opening of a file, and the
-- queries trace and find, as fields of the record Services. std::regex_search is an argument of the find
-- query, and what it relies on is the hypothesis FindsPieces. Which worker of a scan takes the next
-- chunk is a schedule; an exception in a worker is left out.
-- Of the publication of a database, the permissions, the locks and the process that guards it are
-- left out. The hash that the removal of equal entries places them by is a parameter.
pub mod Base
pub mod Wave
pub mod Api
pub mod Trace
pub mod Tests
