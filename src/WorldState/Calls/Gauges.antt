-- ===== src/WorldState/Calls/Gauges.antt =====
-- internal/worldstate/worldstate.go: what each call does to the gauges of replicas and reservations.
use schedulator.Prelude.{
  ◌+◌, pos, ◌+ℤ◌, ◌-ℤ◌, ◌≡◌, refl, String, false, [], ◌∷◌, none, Map, lookup, IsMap, insert-IsMap,
  delete-IsMap, count_values, count-insert, count-delete, arith, Option-cases, inl, inr, Bool-cases,
}
use schedulator.Floats.{Float64}
use schedulator.Model.{
  Time, ReplicaStatus, status_eq, ReservationStatus, is_active, Replica, GpuReservation,
}
use schedulator.WorldState.{
  WorldState, forget, upsert_replica, delete_replica, create_reservation, close_reservation,
  is_stale, sweep, stale_count, expire_stale_reservations,
}

abbrev pub ReplicasCounted : {F : Type 0} → WorldState F → Type 0
ReplicasCounted ws =
    (s : ReplicaStatus)
    → ws.replicas_gauge s ≡ pos (count_values (λ r. status_eq r.status s) ws.replicas)

abbrev pub ReservationsCounted : {F : Type 0} → WorldState F → Type 0
ReservationsCounted ws =
    ws.reservations_gauge ≡ pos (count_values (λ r. is_active r.status) ws.reservations)

sweep-lookup-none :
    (now : Time) (k : String) (m : Map GpuReservation)
    → lookup k m ≡ none
    → lookup k (sweep now m) ≡ none
unfolding sweep
sweep-lookup-none now k [] h = refl
sweep-lookup-none now k ((id, r) ∷ m) h = ground (arith, sweep-lookup-none now k m)

pub sweep-IsMap : (now : Time) (m : Map GpuReservation) → IsMap m → IsMap (sweep now m)
unfolding sweep
sweep-IsMap now [] h = tt
sweep-IsMap now ((id, r) ∷ m) h = (sweep-lookup-none now id m h.0, sweep-IsMap now m h.1)

count-sweep :
    (now : Time) (m : Map GpuReservation)
    → count_values (λ r. is_active r.status) (sweep now m) + stale_count now m
      ≡ count_values (λ r. is_active r.status) m
unfolding sweep stale_count is_stale
count-sweep now [] = omega arith
count-sweep now ((id, r) ∷ m) = ground (arith, count-sweep now m)

module _ {F : Type 0} where
  pub create_reservation-counted :
      (r : GpuReservation) (ws : WorldState F)
      → ReservationsCounted ws
      → ReservationsCounted (create_reservation r ws).0
  unfolding create_reservation ◌+ℤ◌
  create_reservation-counted r ws h =
      ground (arith, count-insert (λ x. is_active x.status) r.reservation_id r ws.reservations)

  pub create_reservation-IsMap :
      (r : GpuReservation) (ws : WorldState F)
      → IsMap ws.reservations
      → IsMap (create_reservation r ws).0.reservations
  unfolding create_reservation
  create_reservation-IsMap r ws h = elim (Option-cases (lookup r.reservation_id ws.reservations)) [
    | inl e ↦ rw (e, create_reservation) (insert-IsMap r.reservation_id r ws.reservations h)
    | inr (old, e) ↦ rw (e, create_reservation) h
  ]

  pub close_reservation-IsMap :
      (status : ReservationStatus) (id : String) (ws : WorldState F)
      → IsMap ws.reservations
      → IsMap (close_reservation status id ws).0.reservations
  unfolding close_reservation
  close_reservation-IsMap status id ws h = elim (Option-cases (lookup id ws.reservations)) [
    | inl e ↦ rw (e, close_reservation) h
    | inr (r, e) ↦
        let closed = insert-IsMap id (record r { status = status }) ws.reservations h in
        elim (Bool-cases (is_active r.status)) [
          | inl a ↦ rw (e, close_reservation) (rw (a, close_reservation) closed)
          | inr a ↦ rw (e, close_reservation) (rw (a, close_reservation) h)
        ]
  ]

  pub close_reservation-counted :
      (status : ReservationStatus) (id : String) (ws : WorldState F)
      → is_active status ≡ false
      → ReservationsCounted ws
      → ReservationsCounted (close_reservation status id ws).0
  unfolding close_reservation ◌-ℤ◌
  close_reservation-counted status id ws done h = elim (Option-cases (lookup id ws.reservations)) [
    | inl e ↦ rw (e, close_reservation) h
    | inr (r, e) ↦ ground (
      arith,
      count-insert (λ x. is_active x.status) id (record r { status = status }) ws.reservations,
    )
  ]

  pub sweep-counted :
      (now : Time) (ws : WorldState F)
      → ReservationsCounted ws
      → ReservationsCounted (expire_stale_reservations now ws).0
  unfolding expire_stale_reservations ◌-ℤ◌
  sweep-counted now ws h = ground (arith, count-sweep now ws.reservations)

module _ {F : Type 0} ⦃fl : Float64 F⦄ where
  pub upsert_replica-counted :
      (r : Replica) (ws : WorldState F) → ReplicasCounted ws → ReplicasCounted (upsert_replica r ws)
  unfolding upsert_replica ◌-ℤ◌ ◌+ℤ◌
  upsert_replica-counted r ws h s = elim (Option-cases (lookup r.replica_id ws.replicas)) [
    | inl e ↦
        rw (e, forget)
          (ground (arith, h s, count-insert (λ x. status_eq x.status s) r.replica_id r ws.replicas))
    | inr (old, e) ↦
        rw (e, forget)
          (ground (arith, h s, count-insert (λ x. status_eq x.status s) r.replica_id r ws.replicas))
  ]

  pub delete_replica-counted :
      (id : String) (ws : WorldState F)
      → IsMap ws.replicas
      → ReplicasCounted ws
      → ReplicasCounted (delete_replica id ws)
  unfolding delete_replica ◌-ℤ◌ ◌+ℤ◌
  delete_replica-counted id ws u h s = elim (Option-cases (lookup id ws.replicas)) [
    | inl e ↦ rw (e, delete_replica) (h s)
    | inr (r, e) ↦
        rw (e, delete_replica)
          (ground (arith, h s, count-delete (λ x. status_eq x.status s) id ws.replicas))
  ]

  pub delete_replica-IsMap :
      (id : String) (ws : WorldState F) → IsMap ws.replicas → IsMap (delete_replica id ws).replicas
  unfolding delete_replica
  delete_replica-IsMap id ws u = elim (Option-cases (lookup id ws.replicas)) [
    | inl e ↦ rw (e, delete_replica) u
    | inr (r, e) ↦ rw (e, delete_replica) (delete-IsMap id ws.replicas u)
  ]
