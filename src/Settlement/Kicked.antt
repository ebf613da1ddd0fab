-- ===== src/Settlement/Kicked.antt =====
-- Who is removed.
use cardgames.Prelude.{
  ℕ, ◌+◌, ◌*◌, ◌≤◌, ◌≡◌, ◌⊎◌, Bool, true, false, Option, none, some, if◌then◌else◌,
}
use text.Mathlib.Text.{◌==◌ as same_text}
use cardgames.Settlement.Cleanup.{PlayerData}
use cardgames.Settlement.Reaper.{crash_threshold_ms, afk_threshold_ms, elapsed}

-- A player is gone: offline for the threshold, by the moment of the break, by the heartbeat, or with
-- neither of them and no session.
abbrev pub IsGone : ℕ → PlayerData → Option ℕ → Bool → Type 0
IsGone now p seen socket =
    (same_text p.connection "offline" ≡ true)
    × (((at : ℕ) × (p.disconnected_at ≡ some at) × (at * 1000 + crash_threshold_ms ≤ now))
        ⊎ ((p.disconnected_at ≡ none)
            × (((m : ℕ) × (seen ≡ some m) × (m + crash_threshold_ms ≤ now))
                ⊎ ((seen ≡ none) × (socket ≡ false)))))

-- A player is away: out of the game, but in the seat, for the threshold.
abbrev pub IsAway : ℕ → PlayerData → Type 0
IsAway now p =
    (same_text p.status "sitting_out" ≡ true)
    × ((start : ℕ) × (p.sit_out_start ≡ some start) × (start * 1000 + afk_threshold_ms ≤ now))

-- The rules, of the parts of a seat.
abbrev Gone : ℕ → Bool → Option ℕ → Option ℕ → Bool → Type 0
Gone now offline broke seen socket =
    (offline ≡ true)
    × (((at : ℕ) × (broke ≡ some at) × (at * 1000 + crash_threshold_ms ≤ now))
        ⊎ ((broke ≡ none)
            × (((m : ℕ) × (seen ≡ some m) × (m + crash_threshold_ms ≤ now))
                ⊎ ((seen ≡ none) × (socket ≡ false)))))

abbrev crash : ℕ → Bool → Option ℕ → Option ℕ → Bool → Option ℕ
crash now offline broke seen socket =
    if offline
    then elim broke [
      | some at ↦ elapsed crash_threshold_ms (at * 1000) now
      | none ↦ elim seen [
        | some m ↦ elapsed crash_threshold_ms m now
        | none ↦ if socket then none else some 0
      ]
    ]
    else none

abbrev Away : ℕ → Bool → Option ℕ → Type 0
Away now out start =
    (out ≡ true) × ((at : ℕ) × (start ≡ some at) × (at * 1000 + afk_threshold_ms ≤ now))

abbrev afk : ℕ → Bool → Option ℕ → Option ℕ
afk now out start =
    if out
    then elim start [ some at ↦ elapsed afk_threshold_ms (at * 1000) now | none ↦ none ]
    else none
