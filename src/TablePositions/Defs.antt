-- ===== src/TablePositions/Defs.antt =====
-- The angles of the seats, turned so that the player in front of the screen is at the bottom. The
-- points of the ellipses, which the code computes from an angle in floating point, are left out.
use cardgames.Prelude.{
  ℕ, zero, suc, ◌+◌, ◌-◌, ◌*◌, Bool, Option, none, some, List, [], ◌∷◌, get_elem?, ◌==◌,
  if◌then◌else◌,
}
use Prim.Native.Nat.{◌%◌}

-- An angle in degrees, as a fraction.
pub record Angle : Type 0 where
  pub numerator : ℕ
  pub denominator : ℕ

abbrev pub degrees : List ℕ → List Angle
degrees [] = []
degrees (d ∷ ds) = record { numerator = d; denominator = 1 } ∷ degrees ds

-- `LANDSCAPE_ANGLES[totalSeats]`
abbrev pub landscape_angles : ℕ → Option (List Angle)
landscape_angles total_seats =
    if total_seats == 6
    then some (degrees (90 ∷ 150 ∷ 210 ∷ 270 ∷ 330 ∷ 30 ∷ []))
    else if total_seats == 9
    then some (degrees (90 ∷ 130 ∷ 170 ∷ 215 ∷ 255 ∷ 290 ∷ 325 ∷ 10 ∷ 50 ∷ []))
    else if total_seats == 2
    then some (degrees (90 ∷ 270 ∷ []))
    else none

-- `PORTRAIT_ANGLES[totalSeats]`
abbrev pub portrait_angles : ℕ → Option (List Angle)
portrait_angles total_seats =
    if total_seats == 6
    then some (degrees (90 ∷ 155 ∷ 210 ∷ 270 ∷ 330 ∷ 25 ∷ []))
    else if total_seats == 9
    then some (degrees (90 ∷ 150 ∷ 180 ∷ 200 ∷ 255 ∷ 290 ∷ 340 ∷ 0 ∷ 30 ∷ []))
    else if total_seats == 2
    then some (degrees (90 ∷ 270 ∷ []))
    else none

-- `(i * 360) / totalSeats + 90` for the indices from i on.
abbrev pub even_angles : ℕ → ℕ → ℕ → List Angle
even_angles total_seats zero i = []
even_angles total_seats (suc left) i =
    record { numerator = i * 360 + 90 * total_seats; denominator = total_seats }
    ∷ even_angles total_seats left (suc i)

abbrev pub or_even : ℕ → Option (List Angle) → List Angle
or_even total_seats none = even_angles total_seats total_seats 0
or_even total_seats (some angles) = angles

unfoldable pub base_angles : Bool → ℕ → List Angle
base_angles is_portrait total_seats =
    or_even total_seats
      (if is_portrait then portrait_angles total_seats else landscape_angles total_seats)

unfoldable pub rotation_steps : ℕ → ℕ → ℕ
rotation_steps total_seats hero_seat_index = (total_seats - hero_seat_index) % total_seats

unfoldable pub visual_index : ℕ → ℕ → ℕ → ℕ
unfolding rotation_steps
visual_index total_seats hero_seat_index seat_index =
    (seat_index + rotation_steps total_seats hero_seat_index) % total_seats

-- `deg` of a seat; a read out of range is `none`.
unfoldable pub deg : Bool → ℕ → ℕ → ℕ → Option Angle
deg is_portrait total_seats hero_seat_index seat_index =
    get_elem? (base_angles is_portrait total_seats)
      (visual_index total_seats hero_seat_index seat_index)
