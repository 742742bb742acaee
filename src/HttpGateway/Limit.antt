-- ===== src/HttpGateway/Limit.antt =====
-- gateway.js, `readBody`: what the limit lets through.
use agent_mobile.Common.{
  ℕ, ◌+◌, ◌≡◌, refl, none, some, List, [], ◌∷◌, ◌++◌, ltb, if◌then◌else◌, length, arith, false, ◌≤◌,
  le→ltb,
}
use mathlib.Core.List.{append_assoc, append-nil}
use agent_mobile.Channel.{Bytes}
use agent_mobile.Handshake.Base.{Text}
use agent_mobile.HttpGateway.Clients.{read_body, max_body, posted}
use agent_mobile.HttpGateway.{Json, Route, Body, Request, post, parsed}

abbrev pub total_bytes : List Bytes → ℕ
total_bytes [] = 0
total_bytes (c ∷ cs) = length c + total_bytes cs

abbrev pub joined_text : (Bytes → Text) → List Bytes → Text
joined_text decode [] = []
joined_text decode (c ∷ cs) = decode c ++ joined_text decode cs

grown :
    (decode : Bytes → Text) (cs : List Bytes) (d : Text) (n : ℕ)
    → ltb max_body n ≡ false
    → read_body decode cs d n
      ≡ (if ltb max_body (n + total_bytes cs) then none else some (d ++ joined_text decode cs))
unfolding read_body
grown decode [] d n h = ground (arith, h, append-nil d)
grown decode (c ∷ cs) d n h =
    let ih : ltb max_body (n + length c) ≡ false → _ =
      grown decode cs (d ++ decode c) (n + length c) in
    ground (arith, ih, append_assoc d (decode c) (joined_text decode cs))

-- However a body is cut into chunks, it is refused exactly if it has more than MAX_BODY bytes, and
-- otherwise it is the texts of the chunks, one after the other.
pub read_body_lem :
    (decode : Bytes → Text) (cs : List Bytes)
    → read_body decode cs [] 0
      ≡ (if ltb max_body (total_bytes cs) then none else some (joined_text decode cs))
read_body_lem decode cs = ground (arith, grown decode cs [] 0 refl)

-- A body that the limit lets through.
abbrev pub Fits : Json → Route → Body → Type 0
Fits json path b = total_bytes (json.chunks path b) ≤ max_body

abbrev pub whole_request : Route → Body → Request
whole_request path b = record { path = path; method = post; body = parsed b }

pub posted-Fits :
    (json : Json) (path : Route) (b : Body)
    → Fits json path b
    → posted json path b ≡ whole_request path b
unfolding posted
posted-Fits json path b h =
    rw (read_body_lem json.to_string (json.chunks path b), le→ltb max_body _ h) refl
