-- ===== src/Surface/Base64.antt =====
-- www/surface-core.js, `base64Bytes`: the decoded size of a base64 text, without decoding it.
use mathlib.Core.List.{reverse}
use agent_mobile.Common.{
  ℕ, ◌+◌, ◌-◌, ◌*◌, ◌/◌, ◌%◌, Bool, ◌&&◌, ◌||◌, List, [], ◌∷◌, length, leb, ◌==◌, if◌then◌else◌,
}

-- The class `\s` of a regular expression.
unfoldable pub is_space : ℕ → Bool
is_space c =
    (leb 9 c && leb c 13)
    || (c == 32)
    || (c == 160)
    || (c == 0x1680)
    || (leb 0x2000 c && leb c 0x200a)
    || (c == 0x2028)
    || (c == 0x2029)
    || (c == 0x202f)
    || (c == 0x205f)
    || (c == 0x3000)
    || (c == 0xfeff)

-- `s.replace(/\s+/g, '')`
unfoldable pub strip : List ℕ → List ℕ
unfolding is_space
strip [] = []
strip (c ∷ s) = if is_space c then strip s else c ∷ strip s

-- How many `=` a list begins with.
unfoldable pub padding : List ℕ → ℕ
padding [] = 0
padding (c ∷ s) = if c == b'=' then 1 + padding s else 0

unfoldable pub base64_bytes : List ℕ → ℕ
unfolding strip padding
base64_bytes b64 =
    let s = strip b64 in
    let n = length s in
    if n == 0 then 0 else if n % 4 == 0 then (n / 4) * 3 - padding (reverse s) else (n * 3) / 4
