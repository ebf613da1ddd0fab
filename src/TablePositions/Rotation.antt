-- ===== src/TablePositions/Rotation.antt =====
-- The rotation keeps the order of the seats, and the first angle is the player's.
use cardgames.Prelude.{
  ℕ, zero, suc, ◌+◌, ◌-◌, ◌*◌, ◌≤◌, ◌<◌, ◌≡◌, refl, ◌∙◌, ap, inl, inr, Bool, some, List, get_elem?,
  arith, leb, ◌==◌, if◌then◌else◌, Bool-cases,
}
use Prim.Native.Nat.{◌%◌}
use native.Mathlib.Nat.{mod-eq_of_lt, mod-eq-sub-mod}
use cardgames.TablePositions.Defs.{
  Angle, even_angles, base_angles, rotation_steps, visual_index, deg,
}

-- The distance from the player's seat to a seat, in the direction of the seats' numbers.
abbrev pub steps_from : ℕ → ℕ → ℕ → ℕ
steps_from total own seat = if leb own seat then seat - own else seat + total - own

over : (a n : ℕ) → a < n → (n + a) % n ≡ a
over a n h = mod-eq-sub-mod (reaches a n) ∙ ap (λ z. z % n) (less a n) ∙ mod-eq_of_lt h
  where
    reaches : (a n : ℕ) → n ≤ n + a
    reaches a n = omega arith

    less : (a n : ℕ) → n + a - n ≡ a
    less a n = omega arith

rotation_steps_none : (total : ℕ) → 0 < total → rotation_steps total 0 ≡ 0
unfolding rotation_steps
rotation_steps_none total h = ap (λ z. z % total) (plus total) ∙ over 0 total h
  where
    plus : (n : ℕ) → n - 0 ≡ n + 0
    plus n = omega arith

rotation_steps_some :
    (total own : ℕ) → 0 < own → own < total → rotation_steps total own ≡ total - own
unfolding rotation_steps
rotation_steps_some total own p h = mod-eq_of_lt (omega arith)

-- Where the player's seat is one of the table's, a seat of the table is drawn at the index that is
-- its distance from the player's seat around the table.
visual_index_lem :
    (total own seat : ℕ)
    → own < total
    → seat < total
    → visual_index total own seat ≡ steps_from total own seat
unfolding visual_index
visual_index_lem total zero seat h s =
    ap (λ z. (seat + z) % total) (rotation_steps_none total h)
    ∙ ap (λ z. z % total) (still seat)
    ∙ mod-eq_of_lt s
    ∙ unturned
  where
    still : (n : ℕ) → n + 0 ≡ n
    still n = omega arith

    unturned : seat ≡ steps_from total 0 seat
    unturned = ground arith
visual_index_lem total (suc own) seat h s =
    ap (λ z. (seat + z) % total) (rotation_steps_some total (suc own) (omega arith) h)
    ∙ elim (Bool-cases (leb (suc own) seat)) [
      | inl after ↦ rw after (
          ap (λ z. z % total) (round seat (suc own) total (ground arith) (omega arith))
          ∙ over (seat - suc own) total (omega arith))
      | inr before ↦
          rw before (mod-eq_of_lt (ground arith) ∙ shift seat (suc own) total (omega arith))
    ]
  where
    round : (s h n : ℕ) → h ≤ s → h ≤ n → s + (n - h) ≡ n + (s - h)
    round s h n a b = omega arith

    shift : (s h n : ℕ) → h ≤ n → s + (n - h) ≡ s + n - h
    shift s h n b = omega arith

-- An angle at the bottom of the screen: 90 degrees.
abbrev pub IsBottom : Angle → Type 0
IsBottom angle = (angle.numerator ≡ 90 * angle.denominator) × (0 < angle.denominator)

abbrev FirstBottom : List Angle → Type 0
FirstBottom angles = (angle : Angle) × (get_elem? angles 0 ≡ some angle) × IsBottom angle

first_even : (total : ℕ) → 0 < total → FirstBottom (even_angles total total 0)
first_even zero h = absurd (omega arith)
first_even (suc n) h = (_, refl, (omega arith, omega arith))

abbrev ninety : Angle
ninety = record { numerator = 90; denominator = 1 }

ninety-IsBottom : IsBottom ninety
ninety-IsBottom = (refl, omega arith)

first_angle : (portrait : Bool) (total : ℕ) → 0 < total → FirstBottom (base_angles portrait total)
unfolding base_angles
first_angle portrait total h = elim (Bool-cases (total == 6)) [
  | inl six ↦ elim (Bool-cases portrait) [
    | inl p ↦ rw (p, six) (ninety, refl, ninety-IsBottom)
    | inr l ↦ rw (l, six) (ninety, refl, ninety-IsBottom)
  ]
  | inr not_6 ↦ elim (Bool-cases (total == 9)) [
    | inl nine ↦ elim (Bool-cases portrait) [
      | inl p ↦ rw (p, not_6, nine) (ninety, refl, ninety-IsBottom)
      | inr l ↦ rw (l, not_6, nine) (ninety, refl, ninety-IsBottom)
    ]
    | inr not_9 ↦ elim (Bool-cases (total == 2)) [
      | inl two ↦ elim (Bool-cases portrait) [
        | inl p ↦ rw (p, not_6, not_9, two) (ninety, refl, ninety-IsBottom)
        | inr l ↦ rw (l, not_6, not_9, two) (ninety, refl, ninety-IsBottom)
      ]
      | inr not_2 ↦ elim (Bool-cases portrait) [
        | inl p ↦ rw (p, not_6, not_9, not_2) (first_even total h)
        | inr l ↦ rw (l, not_6, not_9, not_2) (first_even total h)
      ]
    ]
  ]
]

-- For every layout and every number of seats, the player whose seat is one of the table's is drawn
-- at the bottom.
pub deg-hero :
    (portrait : Bool) (total own : ℕ)
    → own < total
    → (angle : Angle) × (deg portrait total own own ≡ some angle) × IsBottom angle
unfolding deg
deg-hero portrait total own h =
    let (angle, e, bottom) = first_angle portrait total (omega arith) in
    (angle, ap (λ i. get_elem? (base_angles portrait total) i) at_first ∙ e, bottom)
  where
    no_steps : steps_from total own own ≡ 0
    no_steps = ground arith

    at_first : visual_index total own own ≡ 0
    at_first = visual_index_lem total own own h h ∙ no_steps
