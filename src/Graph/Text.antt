-- ===== src/Graph/Text.antt =====
-- The operations on text that backend/app/services/graph.py uses: `strip`, `len`, and the pattern
-- NODE_ID_RE.
use Prim.Native.Char.{code}
use Prim.Native.String.{String}
use appbi_integration.Base.{ℕ, suc, Bool, true, false, ◌&&◌, ◌||◌, leb, ◌==◌, if◌then◌else◌}

-- `str.isspace` of one character
unfoldable pub is_space : ℕ → Bool
is_space c =
    (leb 9 c && leb c 13)
    || (leb 28 c && leb c 32)
    || (leb 8192 c && leb c 8202)
    || c == 133
    || c == 160
    || c == 5760
    || c == 8232
    || c == 8233
    || c == 8239
    || c == 8287
    || c == 12288

unfoldable pub strip_left : String → String
unfolding is_space
strip_left String.[] = String.[]
strip_left (String.◌∷◌ c s) =
    let rest = strip_left s in if is_space (code c) then rest else String.◌∷◌ c s

abbrev pub is_empty : String → Bool
is_empty String.[] = true
is_empty (String.◌∷◌ c s) = false

unfoldable pub strip_right : String → String
unfolding is_space
strip_right String.[] = String.[]
strip_right (String.◌∷◌ c s) =
    let rest = strip_right s in
    if is_empty rest && is_space (code c) then String.[] else String.◌∷◌ c rest

-- `s.strip()`
unfoldable pub strip : String → String
unfolding strip_left strip_right
strip s = strip_right (strip_left s)

-- `len(s)`
unfoldable pub char_count : String → ℕ
char_count String.[] = 0
char_count (String.◌∷◌ c s) = suc (char_count s)

-- `[A-Za-z0-9_-]`
unfoldable pub is_id_char : ℕ → Bool
is_id_char c =
    (leb b'a' c && leb c b'z')
    || (leb b'A' c && leb c b'Z')
    || (leb b'0' c && leb c b'9')
    || c == b'_'
    || c == b'-'

-- After `n` characters of the class: `$` matches at the end, and before a newline at the end.
unfoldable pub id_from : ℕ → String → Bool
unfolding is_id_char
id_from n String.[] = leb 1 n && leb n 64
id_from n (String.◌∷◌ c s) =
    let rest = id_from (suc n) s in
    if is_id_char (code c) then rest else code c == 10 && is_empty s && leb 1 n && leb n 64

-- `NODE_ID_RE.match(s)`
unfoldable pub node_id_matches : String → Bool
unfolding id_from
node_id_matches s = id_from 0 s
