-- ===== src/Executor/Operations/Closings.antt =====
-- internal/executor/operations.go: what becomes of the reservation of a scale-up.
use schedulator.Prelude.{
  [], ◌∷◌, map, String, true, Option, none, some, lookup, eq_iff, ◌≡◌, refl, ◌⊎◌, inl, inr, arith,
}
use schedulator.Model.{Duration, ReservationStatus, is_active, GpuReservation}
use schedulator.Model.Plans.{ScaleUpDecision}
use schedulator.WorldState.{WorldState, fulfill_reservation, expire_reservation, close_reservation}
use schedulator.WorldState.Reservations.{close_reservation_lem}
use schedulator.Executor.Operations.{
  fulfills, expires, ExecutorConfig, Answer, value, error, Client, WaitError, create_failed,
  wait_failed, close_all, Dispatched, and_then_with, polls, wait_for_running, end_scale_up,
  scale_up,
}

module _ {F : Type 0} where
  closed_active :
      (status : ReservationStatus) (id : String) (v : GpuReservation) (ws : WorldState F)
      → lookup id ws.reservations ≡ some v
      → is_active v.status ≡ true
      → lookup id (close_reservation status id ws).0.reservations
        ≡ some (record v { status = status })
  closed_active status id v ws known active =
      ground (arith, known, active, eq_iff id id, (close_reservation_lem status id ws id).0)

  module _ {S E : Type 0} (client : Client S E) (d : ScaleUpDecision) where
    -- The reservation after the closings.
    abbrev after : WorldState F → Dispatched S E → Option GpuReservation
    after ws r = lookup d.reservation_id (close_all (map (λ c. c.0) r.closings) ws).reservations

    -- How a wait ended, in its clusters, and what was done then.
    abbrev Fulfilled : GpuReservation → WorldState F → Dispatched S E → S → Type 0
    Fulfilled v ws r s =
        (r.failure ≡ none)
        × (r.clusters ≡ s)
        × (r.closings ≡ (fulfills d.reservation_id, s) ∷ [])
        × (after ws r ≡ some (record v { status = ReservationStatus.fulfilled }))

    abbrev Expired :
        String → GpuReservation → WorldState F → Dispatched S E → Option (WaitError E) × S → Type 0
    Expired id v ws r waited =
        (e : WaitError E) × (waited.0 ≡ some e)
        × (r.failure ≡ some (wait_failed e))
        × (r.closings ≡ (expires d.reservation_id, waited.1) ∷ [])
        × (r.clusters ≡ (client.delete_replica id waited.1).1)
        × (after ws r ≡ some (record v { status = ReservationStatus.expired }))

    abbrev Ended :
        String → GpuReservation → WorldState F → Dispatched S E → Option (WaitError E) × S → Type 0
    Ended id v ws r waited =
        ((waited.0 ≡ none) × Fulfilled v ws r waited.1) ⊎ Expired id v ws r waited

    -- The reservation after the scale-up, by what became of the creation of the replica.
    abbrev pub IsAccounted :
        ExecutorConfig
        → Duration
        → Answer String E × S
        → GpuReservation
        → WorldState F
        → Dispatched S E
        → Type 0
    IsAccounted cfg ttl (value id, s) v ws r =
        Ended id v ws r (wait_for_running client id (polls ttl cfg.poll_interval) s)
    IsAccounted cfg ttl (error e, s) v ws r =
        (r.failure ≡ some (create_failed e)) × (r.closings ≡ []) × (after ws r ≡ some v)

    end_scale_up-IsAccounted :
        (id : String) (o : Option (WaitError E) × S) (v : GpuReservation) (ws : WorldState F)
        → lookup d.reservation_id ws.reservations ≡ some v
        → is_active v.status ≡ true
        → Ended id v ws (end_scale_up client d id o) o
    unfolding end_scale_up close_all fulfill_reservation expire_reservation
    end_scale_up-IsAccounted id (none, s) v ws known active = inl (
      refl,
      (
        refl,
        refl,
        refl,
        closed_active ReservationStatus.fulfilled d.reservation_id v ws known active,
      ),
    )
    end_scale_up-IsAccounted id (some e, s) v ws known active = inr (
      e,
      refl,
      refl,
      refl,
      refl,
      closed_active ReservationStatus.expired d.reservation_id v ws known active,
    )

    -- When a replica is created and the wait for it succeeds, the scale-up succeeds and its active
    -- reservation is fulfilled. When the wait fails, the scale-up fails with the error of the wait, the
    -- reservation expires while the clusters are as the wait left them, and the last change of the
    -- clusters is the request to delete the created replica. When no replica can be created, the
    -- scale-up fails and the reservation stays as it is.
    pub scale_up-IsAccounted :
        (cfg : ExecutorConfig) (ttl : Duration) (s : S) (v : GpuReservation) (ws : WorldState F)
        → lookup d.reservation_id ws.reservations ≡ some v
        → is_active v.status ≡ true
        → IsAccounted cfg ttl
            (client.create_replica d.app_id d.scheduling_constraints s)
            v
            ws
            (scale_up client cfg d ttl s)
    unfolding scale_up close_all
    scale_up-IsAccounted cfg ttl s v ws known active =
        go (client.create_replica d.app_id d.scheduling_constraints s)
      where
        go :
            (r : Answer String E × S)
            → IsAccounted cfg ttl r v ws (
                and_then_with create_failed r (λ id s1.
                  end_scale_up client d id
                    (wait_for_running client id (polls ttl cfg.poll_interval) s1)))
        go (error e, s1) = (refl, refl, known)
        go (value id, s1) =
            end_scale_up-IsAccounted id
              (wait_for_running client id (polls ttl cfg.poll_interval) s1) v ws known active
