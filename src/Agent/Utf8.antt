-- ===== src/Agent/Utf8.antt =====
-- `AgentHandler::ensure_utf8` of src/agent/agent_handler.cpp.
pub mod Repair
use drlog_search.Base.{
  ℕ, zero, suc, ◌+◌, Bool, ◌&&◌, Option, none, some, [], ◌∷◌, ◌++◌, Bytes, ltb, leb, if◌then◌else◌,
  length,
}

-- `(c & 0xC0) == 0x80` and the like, on a byte.
abbrev pub is_continuation : ℕ → Bool
is_continuation c = leb 128 c && ltb c 192

-- How many bytes stand behind the first in a sequence: `c < 0x80`, `(c & 0xE0) == 0xC0`,
-- `(c & 0xF0) == 0xE0`, `(c & 0xF8) == 0xF0`.
abbrev pub sequence : ℕ → Option ℕ
sequence c =
    if ltb c 128
    then some 0
    else if leb 192 c && ltb c 224
    then some 1
    else if leb 224 c && ltb c 240
    then some 2
    else if leb 240 c && ltb c 248
    then some 3
    else none

-- The bytes that are copied behind the first, and what is left of the text; `none` where they are
-- no continuation or the text ends.
unfoldable pub continuation : ℕ → Bytes → Option (Bytes × Bytes)
continuation zero s = some ([], s)
continuation (suc count) [] = none
continuation (suc count) (c ∷ s) =
    let later = continuation count s in if is_continuation c then behind c later else none
  where
    behind : ℕ → Option (Bytes × Bytes) → Option (Bytes × Bytes)
    behind c none = none
    behind c (some (copied, rest)) = some (c ∷ copied, rest)

unfoldable pub copy_sequence : ℕ → Bytes → Option (Bytes × Bytes) → Bytes × Bytes
copy_sequence c s none = (b'?' ∷ [], s)
copy_sequence c s (some (copied, rest)) = (c ∷ copied, rest)

unfoldable pub sequence_step : ℕ → Bytes → Option ℕ → Bytes × Bytes
unfolding continuation copy_sequence
sequence_step c s none = (b'?' ∷ [], s)
sequence_step c s (some count) = copy_sequence c s (continuation count s)

-- One round: what is added to `result`, and the text that is left.
unfoldable pub utf8_step : ℕ → Bytes → Bytes × Bytes
unfolding sequence_step
utf8_step c s = sequence_step c s (sequence c)

unfoldable pub utf8_loop : ℕ → Bytes → Bytes
utf8_loop zero s = []
utf8_loop (suc fuel) [] = []
utf8_loop (suc fuel) (c ∷ s) = (utf8_step c s).0 ++ utf8_loop fuel (utf8_step c s).1

-- Each round reads a byte at least, so the fuel suffices.
unfoldable pub ensure_utf8 : Bytes → Bytes
unfolding utf8_loop utf8_step
ensure_utf8 s = utf8_loop (length s) s
