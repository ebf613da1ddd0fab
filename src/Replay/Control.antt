-- ===== src/Replay/Control.antt =====
-- The place of the replayer under its controls.
use cardgames.Prelude.{
  min_ℤ, max_ℤ, ◌≡◌, inl, inr, false, List, arith, ℤ, pos, negsuc, ◌+ℤ◌, ◌-ℤ◌, ◌≤ℤ◌, leb_ℤ,
  int_laws, Bool-cases,
}
use cardgames.Replay.Defs.{
  ActionEntry, Replayer, Control, play, pause, toggle_play, step_forward, step_backward, reset,
  go_to_index, set_speed, tick, last_index, do_play, do_tick, handle,
}

-- The place is -1 or one of the log's actions.
abbrev pub IsPlaced : List ActionEntry → Replayer → Type 0
IsPlaced log r = (negsuc 0 ≤ℤ r.current_index) × (r.current_index ≤ℤ last_index log)

last_index_bound : (log : List ActionEntry) → negsuc 0 ≤ℤ last_index log
last_index_bound log = omega int_laws

pub do_play-IsPlaced :
    (log : List ActionEntry) (r : Replayer) → IsPlaced log r → IsPlaced log (do_play log r)
unfolding do_play
do_play-IsPlaced log r h = elim (Bool-cases (leb_ℤ (last_index log) r.current_index)) [
  | inl e ↦ rw e (omega int_laws, last_index_bound log)
  | inr e ↦ rw e h
]

do_tick-IsPlaced :
    (log : List ActionEntry) (r : Replayer) → IsPlaced log r → IsPlaced log (do_tick log r)
unfolding do_tick
do_tick-IsPlaced log r h = elim (Bool-cases r.is_playing) [
  | inr e ↦ rw e h
  | inl on ↦ elim (Bool-cases (leb_ℤ (last_index log) r.current_index)) [
    | inl e ↦ rw (on, e) h
    | inr e ↦ rw (on, e) (omega (int_laws), below (last_index log) r.current_index e)
  ]
]
  where
    below : (a b : ℤ) → leb_ℤ a b ≡ false → b +ℤ pos 1 ≤ℤ a
    below a b e = grind int_laws

low : (a b : ℤ) → negsuc 0 ≤ℤ a → negsuc 0 ≤ℤ b → negsuc 0 ≤ℤ min_ℤ a b
low a b h k = ground arith

high : (a b : ℤ) → min_ℤ a b ≤ℤ b
high a b = ground arith

above_right : (a b : ℤ) → b ≤ℤ max_ℤ a b
above_right a b = ground arith

above_left : (a b : ℤ) → a ≤ℤ max_ℤ a b
above_left a b = ground arith

above_under : (a b c : ℤ) → a ≤ℤ c → b ≤ℤ c → max_ℤ a b ≤ℤ c
above_under a b c h k = ground arith

-- Every control and every tick keeps a place that is between -1 and the last action there.
pub handle-IsPlaced :
    (log : List ActionEntry) (c : Control) (r : Replayer)
    → IsPlaced log r
    → IsPlaced log (handle log c r)
unfolding handle
handle-IsPlaced log play r h = do_play-IsPlaced log r h
handle-IsPlaced log pause r h = h
handle-IsPlaced log toggle_play r h = elim (Bool-cases r.is_playing) [
  | inl on ↦ rw on h
  | inr off ↦ rw off (do_play-IsPlaced log r h)
]
handle-IsPlaced log step_forward r h = (
  low (r.current_index +ℤ pos 1) _ (omega int_laws) (last_index_bound log),
  high (r.current_index +ℤ pos 1) (last_index log),
)
handle-IsPlaced log step_backward r h = (
  above_right (r.current_index -ℤ pos 1) (negsuc 0),
  above_under (r.current_index -ℤ pos 1) (negsuc 0) _ (omega int_laws) (last_index_bound log),
)
handle-IsPlaced log reset r h = (omega int_laws, last_index_bound log)
handle-IsPlaced log (go_to_index i) r h = (
  above_left (negsuc 0) (min_ℤ i (last_index log)),
  above_under (negsuc 0) (min_ℤ i (last_index log)) _ (last_index_bound log)
      (high i (last_index log)),
)
handle-IsPlaced log (set_speed v) r h = h
handle-IsPlaced log tick r h = do_tick-IsPlaced log r h
