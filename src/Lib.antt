-- ===== src/Lib.antt =====
-- Apatchy fuzzes the Apache HTTP server. Its Python package, framework/src/apatchy, downloads,
-- configures and builds Apache with sanitizers, makes further trees of it with other flags, compiles and links
-- harnesses against them, makes seeds, runs the fuzzing engine and reports on what it found. This
-- library models the parts of that package that decide something, and leaves the running of compilers
-- and of the engine outside.
--
-- How the parts interact: the flags of a build mode (managers/config_manager.py with compat.py) go to
-- `AlternateBuildTree.ensure_build` (utils/build_tree.py), which patches them into the build files of
-- a copy of the tree; `HarnessBuilder` (core/harness.py) reads them back from config_vars.mk of that
-- tree and links a harness with the same sanitizers; seeds come from a grammar (fuzzers/grammar.py);
-- the engine's display hands its numbers to the exporter (utils/stats_exporter.py); a report picks
-- its tools through the toolchain file (core/toolchain_config.py) and has its bitcode made and linked
-- by managers/introspector_manager.py; a menu (utils/picker.py) asks where a choice is open. The
-- dispatcher (method_dispatcher.py) carries the sanitizers from one command to the next in the
-- metadata of a tree (core/build_meta.py), and managers/bug_manager.py runs the whole chain for a bug.
--
-- The files, with paths from framework/src/apatchy:
--   Base            shared: `==`, lists, Python's `dict` in insertion order, methods on `str`, numerals
--   Picker          utils/picker.py: `pick_option`; Bounds, View (the window) and Keys
--   Stats           utils/stats_exporter.py and fuzzers/types.py: `StatsExporter`; Events, Mutators,
--                   Pulses and Flush (the file on the disk)
--   Toolchain       core/toolchain_config.py; Laws, Update (`update_section`), Resolve (`resolve_tool`)
--   Tooling         core/toolchain and managers/toolchain_manager.py: the checks of the tools; Groups and
--                   Kept (`check`), Registry, Setup (what the installers write)
--   Dev             managers/dev_manager.py: `DevManager`; Kept (`build_project`)
--   Grammar         fuzzers/grammar.py: `_expand` and `generate_seeds`; Derive, Total and Seeds
--   Flags           compat.py and `ConfigManager`: `generate_build_config`; Sanitizers, Config
--   Introspector    managers/introspector_manager.py: the entries taken, Outputs and
--                   Commands (`build_bitcode`), Linking
--   BuildTree       utils/build_tree.py: `AlternateBuildTree`; Text (the patterns), Refresh, Ensure
--   Harness         core/harness.py: `HarnessBuilder`; Tags, Sanitizers, Configured, Libraries,
--                   Commands, Proto and Objects (a harness of protobuf)
--   Display         utils/libfuzzer_ui.py: `LibFuzzerUI`; Patterns (the regular expressions), Numerals,
--                   Calls, Steps, Counters and Exported (what one line does), Restarts (`run`)
--   Report          managers/report_manager.py: `_detect_llvm_toolchain` (Tools),
--                   `_find_llvm_symbolizer` (Symbolizer), `_collect_corpus_dirs`; Introspect, Analysis
--                   and Annotate (`generate_introspect`) with Edges, Merge, Covered, Lines, Sites and
--                   Document; Triage (`_triage_env`, `triage_bulk`) with Labels and Counts;
--                   Coverage (`generate_coverage`) with Cache and Pipeline
--   Build           managers/build_manager.py: `configure_httpd`; Meta (core/build_meta.py), Compile, Version
--                   (the version in the name of a tree, compat.py)
--   Dispatch        method_dispatcher.py: the active tree, configure, make of a branch and link,
--                   Pipeline (the three one after the other); Clean and Kept (`_handle_clean`);
--                   Commands (what `fuzz`, `triage`, `setup`, `module` and `test` call)
--   Modules         managers/module_manager.py; Words (the flags that a module takes over)
--   Downloader      core/downloader.py; Paths, Targets and Dependencies (the disk), Complete,
--                   Refused (no server has the archive), Versions (`list_versions`)
--   Bugs            managers/bug_manager.py and bugs/base.py; Setup, Linked and Ends
--   Fuzzing         fuzzers/base.py and fuzzers/libfuzzer.py: Environment, Prepare and Corpus
-- Each has a Tests module, with runs on concrete data and the theorems at concrete inputs.
--
-- Conventions. A method of a class is a function on a record of the fields that it reads, under the
-- name of the method without its leading underscore; a dictionary is a list of pairs in insertion
-- order; an exception is `none` or a constructor of the module's own result type. A text is a
-- sequence of characters compared by their code points, and case, white space and word characters
-- are taken as in ASCII; lines end at a line feed only. A loop over a sequence is recursion on it.
-- The two loops that a number bounds are `_expand`, on the depth that is left as in the source, and
-- the digits of a number, with one step more than the number.
--
-- Parameters: the clock and the random source, what exists on the disk and the parts of a path
-- (`pathlib`), versions and their specifiers (`packaging`), SHA-256, `make`, `./configure`, what
-- `llvm-nm`, `clang --version`, `pcre-config` and `pkg-config` print, what a server answers, the start
-- tags of a page, what an archive unpacks to, the classes of contributors, the lines and exit codes of
-- the engine, and what `llvm-cov export` and `wuxi` write. JSON and TOML are
-- what the reader makes of the file. What a theorem needs of them is among its hypotheses.
--
-- What is read from a file is in the shape that the program writes: the entries of stat.json, the types
-- of the values in the metadata of a build, and in the toolchain file sections other than DEFAULT with
-- values of one line, without a percent sign and without white space around them. Python's limit to
-- nested calls and to the digits of a numeral is not modelled.
--
-- Not modelled: the command line (main.py) and the commands of method_dispatcher.py that only hand
-- their arguments on, the terminal (utils/ui.py, and what utils/libfuzzer_ui.py draws), logging, the start of
-- processes, the downloads and builds of the installers, the bug scripts, and the code in C and C++ (harnesses,
-- protobuf converters and the introspector). These run other programs, or show text. Of the reports
-- the HTML pages are left out.
pub mod Base
pub mod Picker
pub mod Stats
pub mod Toolchain
pub mod Tooling
pub mod Dev
pub mod Grammar
pub mod Flags
pub mod Introspector
pub mod BuildTree
pub mod Bugs
pub mod Harness
pub mod Report
pub mod Fuzzing
pub mod Display
pub mod Build
pub mod Dispatch
pub mod Modules
pub mod Downloader
