-- ===== src/Tests/Agent.antt =====
-- src/agent/agent_handler.cpp on small texts.
use drlog_search.Base.{[], ◌∷◌, ◌≡◌, refl}
use drlog_search.Agent.Utf8.{ensure_utf8}
use drlog_search.Agent.Utf8.Repair.{IsUtf8, ensure_utf8_lem}

ensure_utf8_lem_example :
    IsUtf8 (ensure_utf8 (b'a' ∷ 195 ∷ 169 ∷ 255 ∷ []))
    × (IsUtf8 (b'a' ∷ 195 ∷ 169 ∷ 255 ∷ [])
        → ensure_utf8 (b'a' ∷ 195 ∷ 169 ∷ 255 ∷ []) ≡ b'a' ∷ 195 ∷ 169 ∷ 255 ∷ [])
ensure_utf8_lem_example = ensure_utf8_lem (b'a' ∷ 195 ∷ 169 ∷ 255 ∷ [])

replaces_stray_bytes :
    ensure_utf8 (b'a' ∷ 195 ∷ 169 ∷ 255 ∷ 226 ∷ 130 ∷ [])
    ≡ b'a' ∷ 195 ∷ 169 ∷ b'?' ∷ b'?' ∷ b'?' ∷ []
unfolding ensure_utf8
replaces_stray_bytes = refl
