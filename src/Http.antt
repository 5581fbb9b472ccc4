-- ===== src/Http.antt =====
-- The parts of an `*http.Request` that the engine reads.
use guard_go.Base.{List, Option}
use guard_go.Text.{Bytes}
use guard_go.Rules.{Url}

-- The header is the list of its names and their values, in the order of one walk of Go
-- over the map.
abbrev pub Header : Type 0
Header = List (Bytes × List Bytes)

pub record HttpRequest : Type 0 where
  pub method : Bytes
  pub host : Bytes
  pub url : Option Url
  pub header : Header
