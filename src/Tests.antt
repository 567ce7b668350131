-- ===== src/Tests.antt =====
-- Tests on concrete inputs, and the theorems applied to them.
mod Json
mod Util
mod Searchers
mod Search
mod Run
mod Indexer
mod Agent
mod Sort
mod Dispatch
mod Gateway
mod Exchange
mod Scan
mod Startup
