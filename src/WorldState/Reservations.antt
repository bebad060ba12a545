-- ===== src/WorldState/Reservations.antt =====
-- GPU reservations: what the operations of internal/worldstate/worldstate.go do to each of them.
use schedulator.Prelude.{
  ◌≡◌, refl, String, ◌==◌, eq_iff, Option, none, some, lookup, lookup-insert, if◌then◌else◌, arith,
  Option-cases, Bool-cases, inl, inr,
}
use schedulator.Model.{ReservationStatus, is_active, GpuReservation}
use schedulator.WorldState.{WorldState, Error, not_found, not_active, close_reservation}

-- The error of closing a reservation, given what is stored under its identifier.
abbrev closing_error : String → Option GpuReservation → Option Error
closing_error id none = some (not_found id)
closing_error id (some r) = if is_active r.status then none else some (not_active id r.status)

-- What is stored afterwards.
abbrev closed : ReservationStatus → Option GpuReservation → Option GpuReservation
closed status none = none
closed status (some r) = some (if is_active r.status then record r { status = status } else r)

module _ {F : Type 0} where
  -- What is stored under each identifier after a closing, and its error.
  pub close_reservation_lem :
      (status : ReservationStatus) (id : String) (ws : WorldState F) (j : String)
      → (lookup j (close_reservation status id ws).0.reservations ≡ (
          if id == j then closed status (lookup id ws.reservations) else lookup j ws.reservations))
        × ((close_reservation status id ws).1 ≡ closing_error id (lookup id ws.reservations))
  unfolding close_reservation
  close_reservation_lem status id ws j = elim (Option-cases (lookup id ws.reservations)) [
    | inl e ↦ rw (e, close_reservation) (ground (arith, eq_iff id j, e), refl)
    | inr (r, e) ↦
        rw (e, close_reservation)
          (elim (Bool-cases (is_active r.status)) [
            | inl a ↦
                rw (a, close_reservation)
                  (
                    ground
                        (arith, lookup-insert id j (record r { status = status }) ws.reservations),
                    refl,
                  )
            | inr a ↦ rw (a, close_reservation) (ground (arith, eq_iff id j, e), refl)
          ])
  ]
