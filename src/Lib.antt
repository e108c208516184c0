-- ===== src/Lib.antt =====
-- pgcov measures the coverage of SQL and PL/pgSQL code by its tests. It finds the SQL files, parses
-- them into statements, inserts into each body calls that signal "this segment ran", loads the result
-- into a temporary database for each test, listens for the signals while the test runs, counts them by
-- position, and reports the counts. The parts hand values to each other: discovery gives files to the
-- parser, the parser gives statements to the instrumenter, the instrumenter gives texts to the runner
-- and locations to the collector, the runner and the listener give signals to the collector, and the
-- collector gives coverage data to the reporters and to `merge`.
--
-- The files, and the code they model:
--   Base           names, tests and list lemmas that the other files share; no source file
--   Decimal        `strconv.Itoa` and `strconv.Atoi`, on 64-bit patterns
--   Dict           Go maps from strings, as association lists
--   Text           the functions of package strings that the program uses; its child Fields holds those
--                  that cut a text at white space or look for a text in it, Hex and Order hexadecimal
--                  digits and sort.Strings, Escape html.EscapeString, Utf8 which byte strings are
--                  UTF-8
--   Key            internal/coverage/model.go: formatPositionKey, ParsePositionKey
--   Signal         internal/instrument/location.go: FormatSignalID, ParseSignalID
--   Coverage       internal/coverage/model.go: Coverage, its methods, Merge; its child Files holds
--                  ResolveBaseDir and GetFiles, its child Percent the percentages, its child Store
--                  Save, Load, Exists and Delete of internal/coverage/store.go
--   Point          internal/instrument/types.go: CoveragePoint
--   Collector      internal/coverage/collector.go: seeding and counting of signals; its child
--                  Queries holds the copies and the reset
--   Lexer          the interface of the package pglex, which is a parameter
--   Parser         internal/parser: statements, their kinds, languages and bodies; its child Source
--                  holds Parse and ParseStatements
--   Instrument     internal/instrument/instrumenter.go: instrumentBody and what it calls; its child
--                  Files holds instrumentStatement and GenerateCoverageInstruments
--   Report         internal/report: Lcov (lcov.go), Html (the ranges of html.go and, in its child
--                  Render, the pieces of a rendered source, in Layout and Page the page that is
--                  written), Json (json.go), Formats (formatter.go), Sources (where lcov.go and
--                  html.go look for the text of a source)
--   Runner         internal/runner: TestRun, the summary, the exit code of Run in internal/cli/run.go;
--                  its child Workflow holds executeTestWorkflow, Execute and ExecuteBatch (in its child
--                  Runs the executor and the run that Execute returns), and its
--                  child Pool internal/runner/parallel.go: the caller and the workers of
--                  ExecuteParallel as a step relation
--   Listener       internal/database/listener.go: handleNotification, CollectSignals; its child
--                  Connection holds NewListener, receiveLoop and Close
--   Config         pkg/types/types.go (Validate) and internal/cli/config.go (ApplyFlagsToConfig)
--   Discovery      internal/discovery: ClassifyFile, Discover and what is built on it
--   Scaffold       internal/cli/init.go: Arguments (splitArgs, collectBalancedArgs, firstArgType,
--                  formatArgList), Functions (extractFunctions, stripQuotes), Render
--                  (generateScaffold), Create (defaultScaffoldPath, Init)
--   Database       internal/database/pool.go (NewPool) and tempdb.go (CreateTempDatabase,
--                  DestroyTempDatabase)
--   Commands       the commands of pgcov: Combine is Merge of internal/cli/merge.go, Patterns the files
--                  that internal/cli/run.go takes from patterns and the channel that it generates,
--                  Run is Run of internal/cli/run.go, Report is Report of internal/cli/report.go,
--                  and Main is runCommand of cmd/pgcov/main.go with the defaults of
--                  internal/cli/config.go, and in its child Others the other commands
--   Examples       the theorems at concrete inputs
--
-- Numbers. A Go `int` is its 64-bit pattern, a natural number below 2^64, and sums wrap around
-- (`% 2 ^ 64`); offsets into a text are plain natural numbers, since they are bounded by its length.
-- Strings are lists of bytes. A nil pointer is `none`, and an error is a value of a data type.
--
-- Loops are structural recursions over the list they run through. The one loop on fuel, the digits of
-- a number in Decimal, has more fuel than the number has digits, which the round trip of Atoi shows.
--
-- State. The collector's methods are steps on the coverage data, since the mutex makes each of them
-- one step. The runner carries a world along, which the server (database and disk) changes as it
-- likes, and logs what it opens, closes and executes. The listener's two goroutines, its timer and its
-- context are a sequence of events, and what its receive loop and the readers of its channels do is a
-- sequence of actions. The worker pool is a step relation: each step is one action of the
-- caller, of one worker, of the goroutine that closes the results, or of who cancels the context, and
-- any step whose guard holds may be next. The file commands carry the disk along as a world. Run is a
-- relation between the session with the server and its ending, with a constructor for each of its
-- returns behind the preparation; the functions in front of the runs and behind them are computed.
--
-- Parameters: the lexer pglex, of which only the order of the tokens is assumed; pgxpool and the
-- server; the disk; the file system and package filepath; encoding/json, which gives strings back
-- unchanged where they are UTF-8; the runs that Execute may return while other tests use the server
-- (`Outcome` of the pool and of Run); the output of a report; the order of Go maps, which is left
-- open; the clock; floats. Upper and lower case are those of the ASCII letters.
--
-- Not modelled: what Run prints, the declaration and the parsing of the commands and flags (package
-- urfave/cli), the writes of a report one by one (a reporter's text is one write), panics inside the
-- workflow of a test, the helpers of the tests in internal/testutil, and the texts of error messages.
pub mod Base
pub mod Decimal
pub mod Dict
pub mod Key
pub mod Signal
pub mod Coverage
pub mod Point
pub mod Collector
pub mod Text
pub mod Lexer
pub mod Parser
pub mod Instrument
pub mod Report
pub mod Runner
pub mod Discovery
pub mod Config
pub mod Scaffold
pub mod Commands
pub mod Database
pub mod Listener
pub mod Examples
