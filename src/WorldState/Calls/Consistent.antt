-- ===== src/WorldState/Calls/Consistent.antt =====
-- internal/worldstate/worldstate.go: the bookkeeping over sequences of calls.
use schedulator.Prelude.{◌≡◌, refl, String, List, [], ◌∷◌, IsMap, insert-IsMap, arith}
use schedulator.Floats.{Float64}
use schedulator.Model.{ReservationStatus, GpuReservation}
use schedulator.WorldState.{
  WorldState, empty, upsert_cluster, upsert_node, remove_node, upsert_application,
  upsert_performance_profile, upsert_replica, delete_replica, update_vllm_metrics,
  update_cache_locations, create_reservation, close_reservation, fulfill_reservation,
  expire_reservation, record_scale_event, increment_scale_down_signal, expire_stale_reservations,
}
use schedulator.WorldState.Calls.{
  Call, removes_node, upserts_replica, deletes_replica, creates_reservation, fulfills_reservation,
  expires_reservation, expires_stale, apply, run, IsAdmissible, AreAdmissible, IsConsistent,
}
use schedulator.WorldState.Calls.Balance.{apply-AreBalanced}
use schedulator.WorldState.Calls.Clusters.{apply-counted}
use schedulator.WorldState.Calls.Gauges.{
  ReplicasCounted, ReservationsCounted, create_reservation-counted, create_reservation-IsMap,
  close_reservation-counted, close_reservation-IsMap, sweep-IsMap, sweep-counted,
  upsert_replica-counted, delete_replica-counted, delete_replica-IsMap,
}

-- What the operations on nodes and replicas leave alone of the reservations, and the others of the
-- replicas.
module _ {F : Type 0} where
  abbrev SameReplicas : WorldState F → WorldState F → Type 0
  SameReplicas v w = (v.replicas ≡ w.replicas) × (v.replicas_gauge ≡ w.replicas_gauge)

  abbrev SameReservations : WorldState F → WorldState F → Type 0
  SameReservations v w =
      (v.reservations ≡ w.reservations) × (v.reservations_gauge ≡ w.reservations_gauge)

  create_reservation_keeps :
      (r : GpuReservation) (ws : WorldState F) → SameReplicas (create_reservation r ws).0 ws
  unfolding create_reservation
  create_reservation_keeps r ws = ground arith

  close_reservation_keeps :
      (status : ReservationStatus) (id : String) (ws : WorldState F)
      → SameReplicas (close_reservation status id ws).0 ws
  unfolding close_reservation
  close_reservation_keeps status id ws = ground arith

module _ {F : Type 0} ⦃fl : Float64 F⦄ where
  remove_node_keeps :
      (c n : String) (ws : WorldState F)
      → SameReplicas (remove_node c n ws) ws × SameReservations (remove_node c n ws) ws
  unfolding remove_node
  remove_node_keeps c n ws = ground arith

  delete_replica_keeps :
      (id : String) (ws : WorldState F) → SameReservations (delete_replica id ws) ws
  unfolding delete_replica
  delete_replica_keeps id ws = ground arith

  -- A call that leaves the reservations or the replicas alone keeps what is counted of them.
  SameReplicas-counted :
      (v w : WorldState F)
      → SameReplicas v w
      → IsMap w.replicas × ReplicasCounted w
      → IsMap v.replicas × ReplicasCounted v
  SameReplicas-counted v w (same, gauge) h = rw (same, gauge) h

  SameReservations-counted :
      (v w : WorldState F)
      → SameReservations v w
      → IsMap w.reservations × ReservationsCounted w
      → IsMap v.reservations × ReservationsCounted v
  SameReservations-counted v w (same, gauge) h = rw (same, gauge) h

  apply-replicas :
      (c : Call F) (ws : WorldState F)
      → IsMap ws.replicas × ReplicasCounted ws
      → IsMap (apply c ws).replicas × ReplicasCounted (apply c ws)
  unfolding apply upsert_cluster upsert_node upsert_application upsert_performance_profile
      update_vllm_metrics update_cache_locations fulfill_reservation expire_reservation
      record_scale_event increment_scale_down_signal expire_stale_reservations
  apply-replicas (removes_node c n) ws h =
      SameReplicas-counted (remove_node c n ws) ws (remove_node_keeps c n ws).0 h
  apply-replicas (upserts_replica r) ws h = (
    unfold upsert_replica in insert-IsMap r.replica_id r ws.replicas h.0,
    upsert_replica-counted r ws h.1,
  )
  apply-replicas (deletes_replica id) ws h =
      (delete_replica-IsMap id ws h.0, delete_replica-counted id ws h.0 h.1)
  apply-replicas (creates_reservation r) ws h =
      SameReplicas-counted (create_reservation r ws).0 ws (create_reservation_keeps r ws) h
  apply-replicas (fulfills_reservation id) ws h =
      SameReplicas-counted (close_reservation ReservationStatus.fulfilled id ws).0 ws
        (close_reservation_keeps ReservationStatus.fulfilled id ws) h
  apply-replicas (expires_reservation id) ws h =
      SameReplicas-counted (close_reservation ReservationStatus.expired id ws).0 ws
        (close_reservation_keeps ReservationStatus.expired id ws) h
  apply-replicas _ ws h = h

  apply-reservations :
      (c : Call F) (ws : WorldState F)
      → IsMap ws.reservations × ReservationsCounted ws
      → IsMap (apply c ws).reservations × ReservationsCounted (apply c ws)
  unfolding apply upsert_cluster upsert_node upsert_application upsert_performance_profile
      update_vllm_metrics update_cache_locations fulfill_reservation expire_reservation
      record_scale_event increment_scale_down_signal expire_stale_reservations upsert_replica
  apply-reservations (removes_node c n) ws h =
      SameReservations-counted (remove_node c n ws) ws (remove_node_keeps c n ws).1 h
  apply-reservations (deletes_replica id) ws h =
      SameReservations-counted (delete_replica id ws) ws (delete_replica_keeps id ws) h
  apply-reservations (creates_reservation r) ws h =
      (create_reservation-IsMap r ws h.0, create_reservation-counted r ws h.1)
  apply-reservations (fulfills_reservation id) ws h =
      (close_reservation-IsMap _ id ws h.0, close_reservation-counted _ id ws refl h.1)
  apply-reservations (expires_reservation id) ws h =
      (close_reservation-IsMap _ id ws h.0, close_reservation-counted _ id ws refl h.1)
  apply-reservations (expires_stale now) ws h =
      (sweep-IsMap now ws.reservations h.0, sweep-counted now ws h.1)
  apply-reservations _ ws h = h

  pub apply-IsConsistent :
      (c : Call F) (ws : WorldState F)
      → IsAdmissible c
      → IsConsistent ws
      → IsConsistent (apply c ws)
  apply-IsConsistent c ws a v =
      let (replicas_map, replicas_counted) =
        apply-replicas c ws (v.replicas_map, v.replicas_counted) in
      let (reservations_map, reservations_counted) =
        apply-reservations c ws (v.reservations_map, v.reservations_counted) in
      record {
        replicas_map = replicas_map;
        reservations_map = reservations_map;
        clusters_counted = apply-counted c ws v.clusters_counted;
        reservations_counted = reservations_counted;
        replicas_counted = replicas_counted;
        balanced = apply-AreBalanced c ws a v.balanced;
      }

  run-keeps :
      (cs : List (Call F)) (ws : WorldState F)
      → AreAdmissible cs
      → IsConsistent ws
      → IsConsistent (run cs ws)
  unfolding run
  run-keeps [] ws a v = v
  run-keeps (c ∷ cs) ws a v = run-keeps cs (apply c ws) a.1 (apply-IsConsistent c ws a.0 v)

  -- After any sequence of calls on the empty state in which clusters and nodes come in with free and
  -- allocated GPUs that add up to the total: no key stands twice among replicas and reservations,
  -- the gauge of clusters is the number of clusters, the gauge of reservations is the number of active ones, the gauge of each replica status is the
  -- number of replicas in it, and free and allocated GPUs of every node add up to its total.
  pub run-IsConsistent : (cs : List (Call F)) → AreAdmissible cs → IsConsistent (run cs empty)
  unfolding empty
  run-IsConsistent cs a = run-keeps cs _ a (record {
    replicas_map = tt;
    reservations_map = tt;
    clusters_counted = refl;
    reservations_counted = refl;
    replicas_counted = λ s. refl;
    balanced = tt;
  })
