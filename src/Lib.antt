-- ===== src/Lib.antt =====
-- drlog-search: agents that index and search log files, and a gateway before them.
--
-- The program. An agent (src/agent) indexes the log files under its roots: the indexer scans the
-- directories, keeps for each file a list of times and offsets, and saves the table of files to a
-- cache file. A search (src/agent/searcher.cpp) parses its queries into searchers
-- (src/agent/searchers), finds by the index where the time range lies in a file, reads the lines
-- there, joins them into records, and runs the searchers on the records in batches. The handlers
-- of the agent (src/agent/agent_handler.cpp) answer /log/list and /log/search. Agents announce
-- themselves at the gateway (src/gateway), whose handlers ask the agents for their files, send
-- each the search for its own files, and merge the records.
--
-- The modules.
--   Base, Text, Table: numbers, lists, permutations, byte texts; `std::string::find`,
--   `std::getline`; `std::map`.
--   Json, Http: the interfaces to nlohmann::json and to the HTTP library, with the exceptions that
--   a handler turns into an answer.
--   Util: src/util. Url and Split are the URL encoding and `split`, Hash `MurMurHash64` and the
--   tags, Igzip igzip.cpp, Gzip the compression, with the `compress_body` and `decompress_body`
--   of the handlers.
--   Searchers: src/agent/searchers. Word is the simple searcher; Boolean is boolean_searcher.cpp,
--   with Token for `tokenize`, Parse for `parse_expr`, Build for `build_pattern`, Matching for
--   `search_line`.
--   Indexer: src/agent/indexer.cpp. Info has its records, Txt `update_file_index_txt_mmap`, Gzip
--   `update_file_index_igzip`, Files the table of files, Scan `add_root`, `scan_root`, `scan_loop`
--   and `init_indexes`, Cache the cache file, Timestamp `get_timestamp_from_log_line`.
--   Search: src/agent/searcher.cpp. Context has the records and the common interface of the
--   searchers, Exec `exec_searchers`, Lines `parse_line`, Window `find_index_pos`, Carry
--   `get_lines_gzip`, Txt `search_file_txt`, Gzip `search_file_igzip`, Run `build_searchers` and
--   `search`.
--   Agent: src/agent/agent_handler.cpp. Utf8 is `ensure_utf8`, Handlers the handlers `list` and,
--   in Handlers/Query, `search`; Startup is what src/agent/main_agent.cpp does at the start.
--   Gateway: src/gateway. Agents is agent_manager.cpp; the others are gateway_handler.cpp, with
--   Batches for the coroutines that share out a list, Listing for `get_agent_log_lists`, Dispatch
--   for `get_agent_search`, Handlers for the handlers and Handlers/Query for `search`, with the
--   comparison that orders the records.
--   Exchange: the answers and announcements of an agent as they reach the gateway.
--   Tests: the theorems at concrete inputs.
--
-- How it is modelled. A text is a list of byte codes, a 64-bit number a native number; a `time_t`
-- is its 64-bit pattern, as its comparisons with `uint64_t` read it. A position in a text is what
-- is left of the text from there. An exception is a `throw` of `Result`, a mutable context a
-- record that is passed on. A loop over a text runs on fuel, one more than the text has bytes:
-- each round reads a byte. The parser of boolean patterns runs on fuel in the same way, over
-- tokens.
--
-- The loops of a search over a gzip stream run on as many rounds as the position they read up to:
-- a read gives a byte or ends them. The index of a gzip file and the decompression run on fuel
-- for the calls of the library, and their theorems say how many suffice. Threads and locks are
-- left out: each operation is one step.
--
-- A handler takes the request, the response as it stands and what it reads of the server, and gives
-- the response it leaves behind, or nothing where the code has undefined behaviour. An `Outcome` is
-- a value, an exception or undefined behaviour. How the coroutines of the gateway interleave what
-- they append to a shared list, the order in which an `unordered_map` lists its entries, and
-- `std::sort` are parameters; the sort of the records takes the comparison of the source, and
-- nothing is assumed of it where that is no strict weak order on them.
--
-- Parameters. Boost.Regex is the record `RegexEngine`: a search finds a match or none, or throws
-- `regex_error`, which the searcher catches, or another exception, which ends the search of the
-- file in its handler. In the scan and in the list of a prefix it is a function that may fail;
-- there only `regex_error` is modelled for the list, and another exception, which would reach the
-- handler of the request, is left out. The searches and the indexes take
-- `get_timestamp_from_log_line`, whose patterns are fixed and whose texts have 50 bytes at most, so
-- that no limit of the engine is met, as a function `timestamp_of` from a line to a time; its own
-- model takes the search for a pattern and the parser of the date library as functions.
-- nlohmann::json is the record `Json`, and what is documented of it the record `JsonLaws`, which
-- Tests/Json fills with a concrete type of values. The HTTP library is `Request`, `Response` and
-- `Client`. zlib is the record `Zlib`, ISA-L and the files of C are the record `Platform` of
-- Util/Igzip; a search sees a gzip file as a stream with its reads. What a directory holds, whether
-- a file exists and what its index is after an update are given as functions, the last two of which
-- may throw; the handlers of those exceptions are modelled. The clock is an argument.
--
-- Not modelled: logging, the HTTP server and client, the settings of the server in the
-- configuration, the main programs but for what Startup has, `start`, `stop` and the waiting of
-- `scan_loop`, which run the thread, and the code that is never called (`search_file_gzip`,
-- `update_file_index_txt`, `update_file_index_gzip`).
pub mod Base
pub mod Text
pub mod Table
pub mod Json
pub mod Util
pub mod Searchers
pub mod Indexer
pub mod Search
pub mod Agent
pub mod Http
pub mod Gateway
pub mod Exchange
pub mod Tests
