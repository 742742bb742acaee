-- ===== src/Wire/Reports.antt =====
-- vendor/hermes-plugin/sidecar/wire.mjs: what is reported of frames that are not delivered.
use native.Mathlib.Nat.{div-add-mod, mul-mod_right, mod-lt}
use mathlib.Core.List.{append-ne-nil_of_right_ne-nil}
use Prim.Native.String.{String}
use agent_mobile.Common.{
  ℕ, zero, suc, ◌+◌, ◌-◌, ◌*◌, ◌/◌, ◌%◌, ◌<◌, ◌≡◌, ◌≢◌, ap, ◌∙◌, false, List, [], ◌∷◌, ◌++◌, arith,
}
use agent_mobile.Wire.{WsState, not_sent, is_open, Log, Options, nth_of, send_frame}

-- `k` frames on a socket that is not open.
unfoldable pub send_times : ℕ → WsState → String → Options → ℕ → List Log
send_times zero state what o drops = []
send_times (suc k) state what o drops =
    let r = send_frame state false what o drops in r.logs ++ send_times k state what o r.drops

module _ (state : WsState) (what : String) (o : Options) (shut : is_open state ≡ false) where
  drops-send_frame : (drops : ℕ) → (send_frame state false what o drops).drops ≡ drops + 1
  unfolding send_frame
  drops-send_frame drops = ground (arith, shut)

  logs-send_frame :
      (drops : ℕ)
      → (drops + 1) % nth_of o ≡ 0
      → (send_frame state false what o drops).logs ≡ not_sent what state (drops + 1) ∷ []
  unfolding send_frame
  logs-send_frame drops h = rw h (ground (arith, shut))

  -- If the count comes to a multiple within the run, something is logged.
  reports :
      (j k drops : ℕ)
      → (drops + suc j) % nth_of o ≡ 0
      → j < k
      → send_times k state what o drops ≢ []
  unfolding send_times
  reports j zero drops h l = absurd (omega (arith, l))
  reports zero (suc k) drops h l = rw (logs-send_frame drops h) (λ e. absurd (cc))
  reports (suc j) (suc k) drops h l =
      append-ne-nil_of_right_ne-nil (send_frame state false what o drops).logs
        (rw (drops-send_frame drops) (reports j k (drops + 1) (same ∙ h) (omega (arith, l))))
    where
      same : (drops + 1 + suc j) % nth_of o ≡ (drops + suc (suc j)) % nth_of o
      same = ap (λ x. x % nth_of o) {x = drops + 1 + suc j} {y = drops + suc (suc j)} (omega arith)

-- Where a multiple of `n` follows `d`.
next_multiple : (d n : ℕ) → 0 < n → (d + suc (n - 1 - d % n)) % n ≡ 0
next_multiple d n h = ap (λ x. x % n) sum ∙ mul-mod_right n (d / n + 1)
  where
    sum : d + suc (n - 1 - d % n) ≡ n * (d / n + 1)
    sum = omega (arith, div-add-mod d n, mod-lt d h)

-- While the socket is not open, every run of as many frames as `everyNth` says (50 if it says 0)
-- logs something, quiet or not, however many were dropped before.
pub silence_is_bounded :
    (state : WsState) (what : String) (o : Options) (drops : ℕ)
    → is_open state ≡ false
    → send_times (nth_of o) state what o drops ≢ []
silence_is_bounded state what o drops shut =
    reports state what o shut (nth_of o - 1 - drops % nth_of o) (nth_of o) drops
      (next_multiple drops (nth_of o) some_nth) (omega (arith, some_nth))
  where
    some_nth : 0 < nth_of o
    some_nth = ground arith
