-- ===== src/Lib.antt =====
-- goiardi is a Chef server in Go. This library models the parts of it that keep and choose data,
-- in the in-memory mode (no database, no S3 upload, no local file directory, and the data store
-- with gob encoding, its default), and proves what they promise.
--
-- The parts and how they interact. Every object type (cookbooks, files, sandboxes, clients,
-- users and others) is kept in one data store under keys made of the type and the name, beside a
-- list of the names of each type. The store also keeps node statuses and log events. Cookbooks
-- choose among their versions by constraints, and free the files of a deleted version in the
-- file store. Sandboxes check uploads against the file store. Clients are kept in the data store
-- and, after a wait, in the index, which a search reads. A shovey job runs on the nodes whose
-- latest status is up, and each of its runs is kept in the data store. The input that all of
-- them take goes through the validations.
--
-- Files and the code they are about:
-- - Base and its children: no code of goiardi, but the parts of Go it uses. Tests (comparisons,
--   the conditional, chained failure), Equality (==), Lists, Text (strings as bytes), Dict
--   (maps), Sort (sort.Sort as a stable insertion sort), Int (64-bit integers as bit patterns),
--   Split (strings.Split), Decimal (strconv.Atoi, ParseUint, %d).
-- - Datastore: datastore/datastore.go. The record DataStore has the cache and the lists;
--   make_key, set, get, delete, get_list and the rest have the names of the functions. NilArrays
--   has ChkNilArray and WalkMapForNil; Keys, Laws, Listing and GetList what the keyed store
--   does; NextId getNextID; NodeStatus and its children the statuses of nodes, against the view
--   of NodeStatus/Abstract; LogInfo the log events; Frame and Calls which parts each call leaves
--   alone; Reach the stores that calls reach.
-- - Objects: the structs of the packages cookbook/, filestore/, sandbox/, client/, user/, node/,
--   shovey/ and report/, and the errors of gerror/error.go.
-- - LogInfo: loginfo/log_info.go, with the search for events in LogInfo/Page, what it asks of an
--   event in LogInfo/Matches, what its loop collects in LogInfo/Collect, and the page that it
--   returns in LogInfo/Limits.
-- - Filestore: filestore/filestore.go, with New in Filestore/New and what DeleteHashes leaves
--   alone in Filestore/Keeps. Sandbox: sandbox/sandbox.go, with the binary search of Purge in
--   Sandbox/Purge.
-- - Cookbook/Versioning: cookbook/versioning.go, versionLess and verConstraintCheck, with
--   printed versions in Canonical, their order in Order, the constraints in Constraints, and
--   extractVerNums in Numbers.
-- - Cookbook/Versions: the methods of cookbook/cookbook.go that order and choose versions, with
--   UpdateLatestVersion in Highest and the constraints in Latest. Cookbook/Store: those that use
--   the data store; Frees below it is about deleteHashes, Deletes about DeleteVersion.
-- - Util/Strings: util/strings.go. Util/Members: maps from JSON. Util/Validations:
--   util/validations.go, with ValidateAsVersion in VersionText and Accepted, ValidateRunList in
--   RunList and the checks of cookbook metadata and divisions in Metadata.
-- - Util/Indexify: Indexify of util/util.go, which makes the lines of an object for the index.
-- - Indexer: indexer/file_index.go, with one document in Document. Collect is about the search
--   of a collection, Ranges about range searches, Reach about the indexes that calls make, Laws
--   about SaveItem and Search.
-- - Search: the links of a query in search/parse.go; Token has the actions of the parser,
--   Execute the searches and execute of search/search.go. Termination and Laws are about
--   execute, against the documents that satisfy a query in Meaning; Links and Finds are about
--   chains and one link, Groups about mergeResults.
-- - Client: client/client.go, with isLastAdmin in Admins, Delete in Laws and UpdateFromJSON in
--   Update.
-- - User: user/user.go, with passwords and the fields of UpdateFromJSON in User/Fields, and
--   Rename in User/Laws.
-- - Node: node/node.go and node/status.go, what reads nodes and their statuses.
-- - Shovey: shovey/shovey.go, the jobs and what requests and goroutines do to them. Shovey/Jobs
--   starts them; below it Runs is about what is stored, Start about startJobs, Cancelled and
--   Cancel about Cancel, Complete about checkCompleted, and Races about the order of steps.
--   Shovey/Stream has the chunks of output, with their keys in Keys, and CombineStreamOutput in
--   Laws and Upload.
-- - Report: report/report.go, with UpdateFromJSON in Report/Json and GetReportList in
--   Report/Laws.
-- - Tests: each law applied to concrete data.
--
-- Conventions. A panic, and log.Fatalln, is none of an Option around the result, but for the
-- missing part in extractVerNums, which its guard rules out and which is an error here. Maps are
-- lists of entries in order of insertion; what ranges over a map has that order. A method that
-- changes its receiver returns it. Logging is dropped.
--
-- Bounds and fuel. Integers are 64 bits wide. versionLess looks at three parts, as the code
-- does. sort.Search runs on fuel equal to the length of the range, and each round shortens the
-- range, so the fuel lasts to the end. RemoveDupStrings runs as many rounds as the slice is
-- long, as range does. New of a sandbox has the code's five tries.
--
-- execute runs on fuel of one more than the length of the chain, which Search/Termination shows
-- to be enough.
--
-- Parameters. Backend is the trie of indexed lines, its packing with zlib and msgpack, and
-- regexp. Float is float64 with what getQuorum does with it. Gob is encoding/gob: what is
-- encoded decodes to what gob keeps of it. Reflect is the package reflect on one struct. The MD5
-- sum, uuid.Parse, time.Parse, HashPasswd, strings.Title, the random ids, the time, go-version's
-- Check, fmt's %v and util.CustomURL are functions that the definitions take.
--
-- The loop of GetStreamOutput has no bound in the code; here it runs on fuel of one more than
-- the number of entries in the store, which Shovey/Stream/Laws shows to be enough.
--
-- Goroutines. What a goroutine does between two locks is a step, and a theorem about an
-- interleaving names its steps. Saving a client starts a goroutine that indexes it later. A
-- World has the objects that wait, and a step indexes one of them.
--
-- Not modelled: SQL backends, S3 and secret vaults, saving the store and the index to disk, HTTP
-- handlers, the parser of queries, which is generated from a grammar, the order and the partial
-- data of search results, the keys of clients and users, saving of nodes, signing and sending of
-- shovey requests, the other object types, and the dependency resolver, whose graph is a copied
-- library.
pub mod Base
pub mod Datastore
pub mod Objects
pub mod Filestore
pub mod Sandbox
pub mod Node
pub mod Shovey
pub mod User
pub mod Report
pub mod Cookbook
pub mod LogInfo
pub mod Util
pub mod Indexer
pub mod Search
pub mod Client
pub mod Tests
