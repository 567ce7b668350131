-- ===== src/Exchange.antt =====
-- An agent (src/agent/agent_handler.cpp) and the gateway (src/gateway/gateway_handler.cpp)
-- together: what the one answers and what the other takes from it.
pub mod Bodies
pub mod Records
pub mod Items
pub mod Lists
pub mod Announcements
use drlog_search.Base.{
  ℕ, ◌^◌, ◌%◌, ◌<◌, Bool, true, Option, none, some, List, [], ◌∷◌, Bytes, ◌≡◌, All,
}
use drlog_search.Json.{Json}
use drlog_search.Table.{lookup}
use drlog_search.Http.{Response, Reply}

-- The header, where it was set.
abbrev pub header : Bytes → Option Bytes
header [] = none
header (c ∷ value) = some (c ∷ value)

-- A response as the client at the other end has it.
abbrev pub transmitted : Response → Reply
transmitted r = record {
  status = r.result;
  body = r.body;
  content_encoding = header r.content_encoding;
}
