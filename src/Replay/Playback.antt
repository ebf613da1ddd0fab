-- ===== src/Replay/Playback.antt =====
-- Playback ends, and a step back undoes a step forward.
use cardgames.Prelude.{
  min_ℤ, max_ℤ, ℕ, zero, suc, ◌≤◌, ◌≡◌, refl, ap, inl, inr, true, false, List, length, arith, ℤ,
  pos, negsuc, ◌+ℤ◌, ◌-ℤ◌, ◌≤ℤ◌, ◌<ℤ◌, leb_ℤ, int_laws, parts_of_eq, eq_of_parts, Bool-cases,
  pos_part,
}
use cardgames.Replay.Defs.{
  ActionEntry, Replayer, play, step_forward, step_backward, last_index, do_play, do_tick, handle,
}
use cardgames.Replay.Control.{IsPlaced, do_play-IsPlaced}

-- Some ticks in a row.
pub ticks : ℕ → List ActionEntry → Replayer → Replayer
ticks zero log r = r
ticks (suc n) log r = ticks n log (do_tick log r)

at_end : (a b : ℤ) → b +ℤ pos 0 ≡ a → leb_ℤ a b ≡ true
at_end a b h = grind (int_laws, parts_of_eq _ _ h)

not_at_end : (a b : ℤ) (d : ℕ) → b +ℤ pos (suc d) ≡ a → leb_ℤ a b ≡ false
not_at_end a b d h = grind (int_laws, parts_of_eq _ _ h)

abbrev playing_at : ℤ → ℕ → Replayer
playing_at i v = record { current_index = i; is_playing = true; playback_speed = v }

ticks_land :
    (d : ℕ) (log : List ActionEntry) (i : ℤ) (v : ℕ)
    → i +ℤ pos d ≡ last_index log
    → ticks (suc d) log (playing_at i v)
      ≡ record { current_index = last_index log; is_playing = false; playback_speed = v }
unfolding ticks do_tick
ticks_land zero log i v h = rw (at_end (last_index log) i h) (
    ap (λ j. record { current_index = j; is_playing = false; playback_speed = v })
      (here i (last_index log) h))
  where
    here : (a b : ℤ) → a +ℤ pos 0 ≡ b → a ≡ b
    here a b h = omega (int_laws, parts_of_eq _ _ h)
ticks_land (suc d) log i v h =
    rw (not_at_end (last_index log) i d h)
      (ticks_land d log (i +ℤ pos 1) v (next i (last_index log) h))
  where
    next : (a b : ℤ) → a +ℤ pos (suc d) ≡ b → a +ℤ pos 1 +ℤ pos d ≡ b
    next a b h = omega (int_laws, parts_of_eq _ _ h)

near :
    (a b : ℤ) (n : ℕ)
    → (negsuc 0 ≤ℤ b) × (b ≤ℤ a)
    → a ≡ pos n -ℤ pos 1
    → suc (pos_part (a -ℤ b)) ≤ suc n
unfolding ◌-ℤ◌
near a b n h e = grind (arith, parts_of_eq _ _ e)

reached : (a b : ℤ) → b ≤ℤ a → b +ℤ pos (pos_part (a -ℤ b)) ≡ a
unfolding ◌-ℤ◌ ◌+ℤ◌
reached a b h = grind (arith, eq_of_parts)

-- Playback ends: from any place of the log, `play` and then at most as many ticks as the log has
-- actions, and one more, leave the replayer stopped at the last action.
pub play_ends :
    (log : List ActionEntry) (r : Replayer)
    → IsPlaced log r
    → (n : ℕ) × (n ≤ suc (length log))
      × (ticks n log (handle log play r)
          ≡ record r { current_index = last_index log; is_playing = false })
unfolding handle do_play
play_ends log r h =
    let s = do_play log r in
    let d = pos_part (last_index log -ℤ s.current_index) in
    let placed = do_play-IsPlaced log r h in
    (
      suc d,
      near (last_index log) s.current_index (length log) placed refl,
      ticks_land d log s.current_index r.playback_speed
          (reached (last_index log) s.current_index placed.1),
    )

min_left : (a b : ℤ) → a ≤ℤ b → min_ℤ a b ≡ a
min_left a b h = ground arith

max_left : (a b : ℤ) → b ≤ℤ a → max_ℤ a b ≡ a
max_left a b h = elim (Bool-cases (leb_ℤ a b)) [
  | inl e ↦ rw e (eq_of_parts b a (ground arith))
  | inr e ↦ rw e refl
]

-- From a place before the last action, a step back after a step forward returns to the same place,
-- paused.
pub step_backward-step_forward :
    (log : List ActionEntry) (r : Replayer)
    → IsPlaced log r
    → r.current_index <ℤ last_index log
    → handle log step_backward (handle log step_forward r) ≡ record r { is_playing = false }
unfolding handle
step_backward-step_forward log r h before =
    rw
      (
        min_left (r.current_index +ℤ pos 1) (last_index log) (omega int_laws),
        back r.current_index,
        max_left r.current_index (negsuc 0) h.0,
      )
      refl
  where
    back : (i : ℤ) → i +ℤ pos 1 -ℤ pos 1 ≡ i
    back i = omega int_laws
