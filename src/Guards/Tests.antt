-- ===== src/Guards/Tests.antt =====
-- A periodic exchange on a grid of 4 by 3 cells with two guard cells.
use aperture4_nick.Base.{ℕ, ◌+◌, ◌*◌, ◌^◌, ◌≤◌, ◌≡◌, refl, arith, [], ◌∷◌, some}
use aperture4_nick.Index.Radix.{cells}
use aperture4_nick.Grid.{Grid, extent}
use aperture4_nick.Grid.Zones.{IsGrid}
use aperture4_nick.Comm.Shift.{moved}
use aperture4_nick.Guards.{Field}
use aperture4_nick.Guards.Exchange.{Domain, Buffers, Sendrecv, send_array}
use aperture4_nick.Guards.Periodic.{IsAlone}
use aperture4_nick.Guards.Image.{send_array-moved}

abbrev plane : Grid
plane =
    record { dims = 8; reduced = 4; guard = 2 } ∷ record { dims = 7; reduced = 3; guard = 2 } ∷ []

plane-IsGrid : IsGrid plane
plane-IsGrid = (
  record { dims = omega arith; small = omega arith },
  (record { dims = omega arith; small = omega arith }, tt),
)

abbrev alone : Domain
alone = record { rank = 0; left = λ dim. some 0; right = λ dim. some 0 }

alone-IsAlone : IsAlone alone
alone-IsAlone = record { to_left = λ dim. refl; to_right = λ dim. refl }

-- a library that delivers what was sent
abbrev loop_back : Sendrecv ℕ
loop_back dest origin tag sent old = sent

abbrev numbered : Field ℕ
numbered [] = 0
numbered (p ∷ []) = p
numbered (p ∷ q ∷ ps) = 10 * p + q

abbrev nothing : Buffers ℕ
nothing = record {
  send = λ dim p. 0;
  recv = λ dim p. 0;
  send_vec = λ dim p. 0;
  recv_vec = λ dim p. 0;
}

few_cells : cells (extent plane) ≤ 2 ^ 31
unfolding extent
few_cells = omega arith

send_array-moved_example :
    (send_array loop_back alone plane (numbered, nothing)).0 (7 ∷ 1 ∷ [])
    ≡ numbered (moved plane (7 ∷ 1 ∷ []))
send_array-moved_example =
    send_array-moved loop_back alone plane (numbered, nothing) (7 ∷ 1 ∷ []) alone-IsAlone
      plane-IsGrid (omega arith, (omega arith, tt)) (omega arith, (omega arith, tt)) (omega arith)
      few_cells
