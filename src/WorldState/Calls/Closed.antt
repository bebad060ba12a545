-- ===== src/WorldState/Calls/Closed.antt =====
-- internal/worldstate/worldstate.go: a reservation that is closed stays so, whatever calls follow.
use schedulator.Prelude.{
  String, ◌==◌, eq_iff, false, true, List, [], ◌∷◌, none, some, Map, lookup, lookup-insert, ◌≡◌,
  refl, arith, Bool-cases, Option-cases, inl, inr, subst, sym, ap, or_else,
}
use schedulator.Floats.{Float64}
use schedulator.Model.{Time, ReservationStatus, is_active, GpuReservation}
use schedulator.WorldState.{
  WorldState, not_active, remove_node, delete_replica, upsert_replica, upsert_cluster, upsert_node,
  upsert_application, upsert_performance_profile, update_vllm_metrics, update_cache_locations,
  create_reservation, close_reservation, fulfill_reservation, expire_reservation,
  record_scale_event, increment_scale_down_signal, is_stale, sweep, expire_stale_reservations,
}
use schedulator.WorldState.Calls.{
  Call, removes_node, deletes_replica, creates_reservation, fulfills_reservation,
  expires_reservation, expires_stale, apply, run,
}

-- The reservation stands under the identifier.
abbrev IsKept : String → GpuReservation → Map GpuReservation → Type 0
IsKept id r m = lookup id m ≡ some r

is_stale-closed :
    (now : Time) (r : GpuReservation) → is_active r.status ≡ false → is_stale now r ≡ false
unfolding is_stale
is_stale-closed now r over = rw (over, is_stale) refl

module _ (id : String) (r : GpuReservation) (over : is_active r.status ≡ false) where
  sweep-IsKept : (now : Time) (m : Map GpuReservation) → IsKept id r m → IsKept id r (sweep now m)
  unfolding sweep
  sweep-IsKept now [] h = h
  sweep-IsKept now ((j, v) ∷ m) h = elim (Bool-cases (j == id)) [
    | inl here ↦ ground (arith, here, h, is_stale-closed now r over, ap (λ o. or_else o v) h)
    | inr there ↦ ground (arith, there, h, sweep-IsKept now m)
  ]

module _ {F : Type 0} (id : String) (r : GpuReservation) (over : is_active r.status ≡ false) where
  create_reservation-IsKept :
      (v : GpuReservation) (ws : WorldState F)
      → IsKept id r ws.reservations
      → IsKept id r (create_reservation v ws).0.reservations
  unfolding create_reservation
  create_reservation-IsKept v ws h = elim (Option-cases (lookup v.reservation_id ws.reservations)) [
    | inr (old, e) ↦ rw (e, create_reservation) h
    | inl e ↦
        rw (e, create_reservation)
          (ground (
            arith,
            h,
            e,
            eq_iff v.reservation_id id,
            lookup-insert v.reservation_id id v ws.reservations,
          ))
  ]

  close_reservation-IsKept :
      (status : ReservationStatus) (j : String) (ws : WorldState F)
      → IsKept id r ws.reservations
      → IsKept id r (close_reservation status j ws).0.reservations
  unfolding close_reservation
  close_reservation-IsKept status j ws h = elim (Option-cases (lookup j ws.reservations)) [
    | inl e ↦ rw (e, close_reservation) h
    | inr (v, e) ↦
        rw (e, close_reservation)
          (elim (Bool-cases (is_active v.status)) [
            | inr closed ↦ rw closed h
            | inl active ↦ rw active (
                ground (
                  arith,
                  h,
                  e,
                  active,
                  over,
                  eq_iff j id,
                  lookup-insert j id (record v { status = status }) ws.reservations,
                ))
          ])
  ]

module _ {F : Type 0} ⦃fl : Float64 F⦄ where
  remove_node_reservations :
      (c n : String) (ws : WorldState F) → (remove_node c n ws).reservations ≡ ws.reservations
  unfolding remove_node
  remove_node_reservations c n ws = ground arith

  delete_replica_reservations :
      (j : String) (ws : WorldState F) → (delete_replica j ws).reservations ≡ ws.reservations
  unfolding delete_replica
  delete_replica_reservations j ws = ground arith

  module _ (id : String) (r : GpuReservation) (over : is_active r.status ≡ false) where
    apply-IsKept :
        (c : Call F) (ws : WorldState F)
        → IsKept id r ws.reservations
        → IsKept id r (apply c ws).reservations
    unfolding apply upsert_cluster upsert_node upsert_application upsert_performance_profile
        update_vllm_metrics update_cache_locations fulfill_reservation expire_reservation
        record_scale_event increment_scale_down_signal expire_stale_reservations upsert_replica
    apply-IsKept (removes_node c n) ws h =
        subst (IsKept id r) (sym (remove_node_reservations c n ws)) h
    apply-IsKept (deletes_replica j) ws h =
        subst (IsKept id r) (sym (delete_replica_reservations j ws)) h
    apply-IsKept (creates_reservation v) ws h = create_reservation-IsKept id r over v ws h
    apply-IsKept (fulfills_reservation j) ws h =
        close_reservation-IsKept id r over ReservationStatus.fulfilled j ws h
    apply-IsKept (expires_reservation j) ws h =
        close_reservation-IsKept id r over ReservationStatus.expired j ws h
    apply-IsKept (expires_stale now) ws h = sweep-IsKept id r over now ws.reservations h
    apply-IsKept _ ws h = h

    run-IsKept :
        (cs : List (Call F)) (ws : WorldState F)
        → IsKept id r ws.reservations
        → IsKept id r (run cs ws).reservations
    unfolding run
    run-IsKept [] ws h = h
    run-IsKept (c ∷ cs) ws h = run-IsKept cs (apply c ws) (apply-IsKept c ws h)

  close_reservation_cases :
      (status : ReservationStatus) (id : String) (ws : WorldState F)
      → (close_reservation status id ws).1 ≡ none
      → (r : GpuReservation) × (lookup id ws.reservations ≡ some r)
        × (is_active r.status ≡ true)
        × (lookup id (close_reservation status id ws).0.reservations
            ≡ some (record r { status = status }))
  unfolding close_reservation
  close_reservation_cases status id ws e = elim (Option-cases (lookup id ws.reservations)) [
    | inl missing ↦ absurd (ground (arith, e, missing))
    | inr (r, known) ↦ elim (Bool-cases (is_active r.status)) [
      | inr over ↦ absurd (ground (arith, e, known, over))
      | inl active ↦ (
        r,
        known,
        active,
        rw (known, close_reservation)
            (rw active (
              ground (
                arith,
                eq_iff id id,
                lookup-insert id id (record r { status = status }) ws.reservations,
              ))),
      )
    ]
  ]

  close_reservation-closed :
      (status : ReservationStatus) (id : String) (r : GpuReservation) (ws : WorldState F)
      → lookup id ws.reservations ≡ some r
      → is_active r.status ≡ false
      → (close_reservation status id ws).1 ≡ some (not_active id r.status)
  unfolding close_reservation
  close_reservation-closed status id r ws known over = rw (known, close_reservation) (rw over refl)

  -- When FulfillReservation or ExpireReservation succeeds, the reservation was active; and whatever
  -- calls follow, also creations and sweeps, the reservation stays under its identifier with the new
  -- status and all else as it was, and every later attempt to close it is refused with that status.
  pub run-close_reservation :
      (status : ReservationStatus) (id : String) (ws : WorldState F) (cs : List (Call F))
      → is_active status ≡ false
      → (close_reservation status id ws).1 ≡ none
      → (r : GpuReservation) × (lookup id ws.reservations ≡ some r)
        × (is_active r.status ≡ true)
        × (lookup id (run cs (close_reservation status id ws).0).reservations
            ≡ some (record r { status = status }))
        × ((again : ReservationStatus)
            → (close_reservation again id (run cs (close_reservation status id ws).0)).1
              ≡ some (not_active id status))
  run-close_reservation status id ws cs over e =
      let (r, known, active, closed) = close_reservation_cases status id ws e in
      let after = record r { status = status } in
      let kept = run-IsKept id after over cs (close_reservation status id ws).0 closed in
      (r, known, active, kept, (λ again. close_reservation-closed again id after _ kept over))
