-- ===== src/Lib.antt =====
-- scap clones repositories below configured roots and lists them. This library models the parts of
-- the program that decide: what a user's input names, which roots there are, what a walk of a root
-- and the index of an earlier walk say, what `list` prints, and what `get` does on the machine.
--
-- Files and what they model:
--   Url and below: src/url.rs. `from_input` as `Url.Input.from_input`, behind the CodeCommit refs of
--     Url.Codecommit and the spellings of Url.Normalize. What `gix_url::parse`, the lossy decoding
--     and `aws configure get region` answer are the fields of `World` and `Aws`.
--   RepoPath: src/path.rs, the directory of a repository below a root.
--   Config and below: src/config.rs. Config.Boolean has git's booleans and integers,
--     Config.Triggers the choice of the backend and the stages of `load`, Config.Snapshot the
--     snapshot of a parsed file, Config.Roots `resolve_roots`, `root_for_url` and `clean_path`,
--     Config.Roots.Memo the memo of `urlmatch`. The parsed file is `GixFile`, a record of what
--     `gix_config` answers; `canonicalize` and the `git` process are arguments. Config.Sources is
--     src/config/sources.rs and the reading of the environment, Config.GitBackend is
--     src/config/git_backend.rs, and Config.Entries and Config.Search are about the two; the file
--     system, the parser and the `git` process are arguments.
--   Index and below: src/index.rs. Index.Word, Index.Reader and Index.Codec are the file format,
--     Index.Validate the probes and the validation pass, Index.Build the index of a listing and its
--     file name, Index.Cache the use of both by `list_root` and `check_root`, Index.Write the write of
--     the file by any number of processes. The modules below these are about them.
--   Walk and below: src/walk/. Walk.Arena is the arena, Walk.Entries the buffer of one directory,
--     Walk.Sys and Walk.Reader the reader over a kernel `Os` whose answers are arguments, Walk.Drive
--     the knobs, `walk_root` and `walk_subtrees`. Walk.Pool counts the directories in flight over all
--     interleavings of the workers, Walk.Park has their parking and leaving, and Walk.Jobs the
--     search for a job over the queues; Walk.Workers has the turns in which they read directories, each
--     read a single step. Walk.Tree is a file system that stands still, the kernel's answers on it and
--     the rules for what is a repository; Lookup, Ledger, Queued, Children, Links, Reads, Merge,
--     Exact and Roots compare the reader with these rules, Ends counts the turns, Descriptors follows
--     the descriptors of one read and Recorded the records, Parking has the accesses of the workers
--     to the count of live descriptors, in any order, and Live is about it, Threads and Times are the
--     thread count and the recorded times.
--   Listing and below: src/cmd/list.rs, the names of repositories in the shared buffer, the query's
--     filter, `--unique`, and in Listing.Run the command from the walks to the printed text.
--   Git and below: src/vcs/git.rs. Git.Stale is the scan for directories of dead processes, Git.Spared
--     and Git.Ends are about the scan and about an update.
--   Get and below: src/cmd/get.rs, a target as a sequence of actions, any of which can fail. Get.Run
--     is the run over the targets, one after the other, with the shell behind it, Get.Crew the
--     workers of a parallel run as steps over the targets, Get.Contest several processes at one lock
--     file. Get.Lock, Get.Spared, Get.Run.Order and Get.Run.There are about them.
--   Remove, Create, RootCommand: src/cmd/rm.rs, src/cmd/create.rs and src/cmd/root.rs, with the
--     resolutions of the target and of the root as fields of a record.
--   Startup: src/lib.rs and src/cli.rs, the filter of the log and the dispatch.
--   Base: lists, byte strings, tests and integers that the parts share, and in Base.Decimal the decimal print
--     and parse of the standard library.
--   Witness: the theorems at concrete inputs.
--
-- How the parts meet: `list` resolves the roots (Config.Roots), walks each or goes through the index
-- (Index.Cache, Walk), names what it found (Listing.Naming), filters and prints. `get` resolves a
-- target (Url), its root (Config.Roots) and its directory (RepoPath), and clones or updates (Git,
-- Get).
--
-- Conventions: a byte string is a list of numbers, a `PathBuf` its bytes. A panic and a `None` of the
-- source are `none`, an error a value of the part's own result type. A `HashMap` is a function or an
-- association list. An i64 is an integer whose bound is written out, a u32 and a u64 a number with
-- its bound. The validation pass has a turn for each entry of the index, which is enough for every
-- index that is decoded; all other loops are by structure.
--
-- Not modelled: how the actions of the workers of one parallel `get` interleave, the life of
-- descriptors outside their count, the wildmatch of a pattern (a pattern is its predicate), messages,
-- tracing and the parsing of the command line. In Walk.Workers a directory read is one step; only
-- Walk.Parking takes it apart. All names of a directory are asked for at once, so that one past 2^32
-- bytes ends the program even behind a `.git`. The index takes the walk as fields of
-- `Index.Cache.Root`, and the load of a configuration takes the source list and the git backend as
-- fields of `Config.Triggers.Loader`.
pub mod Base
pub mod Url
pub mod RepoPath
pub mod Config
pub mod Listing
pub mod Git
pub mod Get
pub mod Remove
pub mod Create
pub mod RootCommand
pub mod Startup
pub mod Walk
pub mod Index
pub mod Witness
