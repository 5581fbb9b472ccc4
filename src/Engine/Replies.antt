-- ===== src/Engine/Replies.antt =====
-- engine_process.go: reading the reply of a script.
use guard_go.Base.{ℕ, Bool, ◌&&◌, List, [], ◌∷◌}
use guard_go.Base.Int.{ℤ, pos, leb_ℤ}
use guard_go.Text.{Bytes}
use guard_go.Redis.{Reply}

-- A value of the Redis client: an integer, a text or a list of such.
pub data Cell : Type 0 where
  integer : ℤ → Cell
  text : Bytes → Cell

pub data LuaValue : Type 0 where
  single : Cell → LuaValue
  array : List Cell → LuaValue

-- `v.(int64)`, 0 for another type.
abbrev pub as_int : Cell → ℤ
as_int (integer n) = n
as_int (text s) = pos 0

-- `parseLuaResult`: code, counter and time to live.
unfoldable pub parse_lua_result : LuaValue → ℤ × ℤ × ℤ
parse_lua_result (single c) = (pos 0, pos 0, pos 0)
parse_lua_result (array []) = (pos 0, pos 0, pos 0)
parse_lua_result (array (a ∷ [])) = (pos 0, pos 0, pos 0)
parse_lua_result (array (a ∷ b ∷ [])) = (as_int a, as_int b, pos 0)
parse_lua_result (array (a ∷ b ∷ c ∷ cells)) = (as_int a, as_int b, as_int c)

-- How the client hands over the script's reply.
abbrev pub lua_value : Reply → LuaValue
lua_value r = array (integer (pos r.code) ∷ integer (pos r.counter) ∷ integer r.ttl ∷ [])

abbrev pub is_code : ℕ → ℤ → Bool
is_code n code = leb_ℤ code (pos n) && leb_ℤ (pos n) code
