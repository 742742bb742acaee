-- ===== src/Sidecar/Tests.antt =====
-- vendor/hermes-plugin/sidecar/index.mjs: the control socket on an example.
use agent_mobile.Common.{
  ℕ, ◌≡◌, refl, Option, some, List, [], ◌∷◌, ◌++◌, codes, nat_eq, lookup, insert, erase,
}
use agent_mobile.Channel.{Bytes}
use agent_mobile.Handshake.Base.{Text, equal_bytes}
use agent_mobile.Renderer.{trim, trim_start, trim_end, is_space}
use agent_mobile.Sidecar.{
  wrote, handled, closed, live, new_control, on_data, on_connection, flush_queued, to_bridge,
  on_close, destroy_socket, on_token, cut, handle_lines, is_in, lines_of, on_lines,
}
use agent_mobile.Sidecar.Chunks.{on_chunks, chunks_do_not_matter, whole}
use agent_mobile.Sidecar.Order.{
  SocketEvent, connection, received, lost, close, says, control_run, control_step, written, said,
  run-new_control-in_order,
}

-- Every line is a message.
abbrev parse_all : Text → Option Text
parse_all s = some s

-- The decoding and the encoding of ASCII
abbrev as_text : Bytes → Text
as_text b = b

abbrev token : Text
token = codes "dev"

abbrev newline : Text
newline = 10 ∷ []

abbrev line_of : Text → Text
line_of s = s ++ newline

-- A line that waits, a wrong token, the right one in two parts with a message behind it, and the end
-- of the connection.
abbrev script : List SocketEvent
script =
    says (line_of (codes "a"))
    ∷ connection
    ∷ received 0 (line_of (codes "bad"))
    ∷ connection
    ∷ received 1 (codes "de")
    ∷ received 1 (codes "v " ++ (newline ++ line_of (codes "m")))
    ∷ says (line_of (codes "b"))
    ∷ lost 1
    ∷ says (line_of (codes "c"))
    ∷ close 1
    ∷ []

script_result :
    let (fx, c) = control_run parse_all as_text token script new_control in
    (fx
      ≡ closed 0
        ∷ wrote 1 (line_of (codes "a"))
        ∷ handled (codes "m")
        ∷ wrote 1 (line_of (codes "b"))
        ∷ [])
    × (c.queued ≡ line_of (codes "c") ∷ [])
unfolding control_run control_step on_close to_bridge live destroy_socket on_data lookup
    on_connection insert erase on_token cut equal_bytes trim trim_end trim_start is_space
    flush_queued handle_lines is_in lines_of on_lines
script_result = (refl, refl)

run-new_control-in_order_example :
    let (fx, c) = control_run parse_all as_text token script new_control in
    (written fx ++ c.queued ≡ said script) × ((i : ℕ) → live c ≡ some i → c.queued ≡ [])
run-new_control-in_order_example = run-new_control-in_order parse_all as_text token script

abbrev one_chunk : Text
one_chunk = codes "dev" ++ (newline ++ line_of (codes "m"))

chunks_do_not_matter_example :
    on_chunks parse_all as_text token 0 (one_chunk ∷ []) (on_connection new_control)
    ≡ on_chunks parse_all as_text token 0
        (codes "d" ∷ codes "ev" ∷ (newline ++ codes "m") ∷ newline ∷ [])
        (on_connection new_control)
unfolding whole
chunks_do_not_matter_example =
    chunks_do_not_matter parse_all as_text token as_text 0 one_chunk (codes "d") []
      (codes "ev" ∷ (newline ++ codes "m") ∷ newline ∷ []) (on_connection new_control) (refl, tt)
      (refl, (refl, (refl, (refl, tt)))) refl
