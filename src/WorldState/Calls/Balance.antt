-- ===== src/WorldState/Calls/Balance.antt =====
-- internal/worldstate/worldstate.go: what each call does to the GPUs of nodes.
use schedulator.Prelude.{
  0ℤ, parts_of_eq, int_laws, ◌≡◌, refl, String, ◌==◌, Bool, true, false, Option, none, some,
  or_else, Map, lookup, AllValues, AllValues-insert, AllValues-delete, AllValues-lookup,
  if◌then◌else◌, arith, Option-cases, inl, inr,
}
use schedulator.Floats.{Float64}
use schedulator.Model.{ReservationStatus, Node, Cluster, Replica, GpuReservation}
use schedulator.WorldState.{
  WorldState, node_map, vacate, occupy, at_node, restore_node_gpus, allocate_node_gpus, rescore,
  rescore_old, leave, moves, upsert_cluster, upsert_node, remove_node, upsert_application,
  upsert_performance_profile, upsert_replica, delete_replica, update_vllm_metrics,
  update_cache_locations, create_reservation, close_reservation, fulfill_reservation,
  expire_reservation, record_scale_event, increment_scale_down_signal, expire_stale_reservations,
}
use schedulator.WorldState.Calls.{
  Call, upserts_cluster, upserts_node, removes_node, upserts_replica, deletes_replica,
  creates_reservation, fulfills_reservation, expires_reservation, apply, IsBalanced, AreBalanced,
  IsAdmissible,
}

vacate-IsBalanced : (r : Replica) (n : Node) → IsBalanced n → IsBalanced (vacate r n)
vacate-IsBalanced r n h = omega (int_laws, parts_of_eq h)

occupy-IsBalanced : (r : Replica) (n : Node) → IsBalanced n → IsBalanced (occupy r n)
occupy-IsBalanced r n h = omega (int_laws, parts_of_eq h)

module _ {F : Type 0} where
  at_node-AreBalanced :
      (f : Node → Node) (r : Replica) (m : Map (Cluster F))
      → ((n : Node) → IsBalanced n → IsBalanced (f n))
      → AllValues AreBalanced m
      → AllValues AreBalanced (at_node f r m)
  unfolding at_node
  at_node-AreBalanced f r m keep h = elim (Option-cases (lookup r.cluster_id m)) [
    | inl e ↦ rw (e, at_node) h
    | inr (c, e) ↦
        let nodes = AllValues-lookup AreBalanced r.cluster_id c m h e in
        elim (Option-cases (lookup r.node_id (node_map c))) [
          | inl e' ↦ rw (e, at_node) (rw (e', at_node) h)
          | inr (n, e') ↦
              rw (e, at_node)
                (rw (e', at_node)
                  (AllValues-insert AreBalanced r.cluster_id _ m
                    (AllValues-insert IsBalanced r.node_id (f n) (node_map c)
                      (keep n (AllValues-lookup IsBalanced r.node_id n (node_map c) nodes e'))
                      nodes)
                    h))
        ]
  ]

module _ {F : Type 0} ⦃fl : Float64 F⦄ where
  rescore-AreBalanced :
      (id : String) (m : Map (Cluster F))
      → AllValues AreBalanced m
      → AllValues AreBalanced (rescore id m)
  unfolding rescore
  rescore-AreBalanced id m h = elim (Option-cases (lookup id m)) [
    | inl e ↦ rw (e, rescore) h
    | inr (c, e) ↦
        rw (e, rescore)
          (AllValues-insert AreBalanced id _ m (AllValues-lookup AreBalanced id c m h e) h)
  ]

  restore-AreBalanced :
      (r : Replica) (m : Map (Cluster F))
      → AllValues AreBalanced m
      → AllValues AreBalanced (restore_node_gpus r m)
  unfolding restore_node_gpus
  restore-AreBalanced r m = at_node-AreBalanced (vacate r) r m (vacate-IsBalanced r)

  allocate-AreBalanced :
      (r : Replica) (m : Map (Cluster F))
      → AllValues AreBalanced m
      → AllValues AreBalanced (allocate_node_gpus r m)
  unfolding allocate_node_gpus
  allocate-AreBalanced r m = at_node-AreBalanced (occupy r) r m (occupy-IsBalanced r)

  if-AreBalanced :
      (b : Bool) (m n : Map (Cluster F))
      → AllValues AreBalanced m
      → AllValues AreBalanced n
      → AllValues AreBalanced (if b then m else n)
  if-AreBalanced true m n h k = h
  if-AreBalanced false m n h k = k

  leave-AreBalanced :
      (old : Option Replica) (r : Replica) (m : Map (Cluster F))
      → AllValues AreBalanced m
      → AllValues AreBalanced (leave old r m)
  leave-AreBalanced none r m h = h
  leave-AreBalanced (some old) r m h =
      if-AreBalanced (moves (some old) r) _ _ (restore-AreBalanced old m h) h

  rescore_old-AreBalanced :
      (old : Option Replica) (r : Replica) (m : Map (Cluster F))
      → AllValues AreBalanced m
      → AllValues AreBalanced (rescore_old old r m)
  rescore_old-AreBalanced none r m h = h
  rescore_old-AreBalanced (some old) r m h =
      if-AreBalanced (old.cluster_id == r.cluster_id) _ _ h (rescore-AreBalanced old.cluster_id m h)

  upsert_replica-AreBalanced :
      (r : Replica) (ws : WorldState F)
      → AllValues AreBalanced ws.clusters
      → AllValues AreBalanced (upsert_replica r ws).clusters
  unfolding upsert_replica
  upsert_replica-AreBalanced r ws h =
      let old = lookup r.replica_id ws.replicas in
      let left = leave-AreBalanced old r ws.clusters h in
      rescore_old-AreBalanced old r _ (
        rescore-AreBalanced r.cluster_id _
          (if-AreBalanced (moves old r) _ _ (allocate-AreBalanced r _ left) left))

  delete_replica-AreBalanced :
      (id : String) (ws : WorldState F)
      → AllValues AreBalanced ws.clusters
      → AllValues AreBalanced (delete_replica id ws).clusters
  unfolding delete_replica
  delete_replica-AreBalanced id ws h = elim (Option-cases (lookup id ws.replicas)) [
    | inl e ↦ rw (e, delete_replica) h
    | inr (r, e) ↦
        rw (e, delete_replica)
          (rescore-AreBalanced r.cluster_id _ (restore-AreBalanced r ws.clusters h))
  ]

  upsert_node-AreBalanced :
      (n : Node) (ws : WorldState F)
      → IsBalanced n
      → AllValues AreBalanced ws.clusters
      → AllValues AreBalanced (upsert_node n ws).clusters
  unfolding upsert_node
  upsert_node-AreBalanced n ws b h =
      AllValues-insert AreBalanced n.cluster_id _ ws.clusters
        (AllValues-insert IsBalanced n.node_id n _ b (known (lookup n.cluster_id ws.clusters) refl))
        h
    where
      known :
          (o : Option (Cluster F))
          → lookup n.cluster_id ws.clusters ≡ o
          → AllValues IsBalanced (
              node_map (
                or_else o (record {
                  cluster_id = n.cluster_id;
                  nodes = none;
                  fragmentation_score = fl.of_int 0ℤ;
                })))
      known none e = tt
      known (some c) e = AllValues-lookup AreBalanced n.cluster_id c ws.clusters h e

  remove_node-AreBalanced :
      (c n : String) (ws : WorldState F)
      → AllValues AreBalanced ws.clusters
      → AllValues AreBalanced (remove_node c n ws).clusters
  unfolding remove_node
  remove_node-AreBalanced c n ws h = elim (Option-cases (lookup c ws.clusters)) [
    | inl e ↦ rw (e, remove_node) h
    | inr (cl, e) ↦
        let balanced = AllValues-lookup AreBalanced c cl ws.clusters h e in
        elim (Option-cases cl.nodes) [
          | inl e' ↦ rw (e, remove_node) (rw (e', remove_node) h)
          | inr (m, e') ↦
              rw (e, remove_node)
                (rw (e', remove_node)
                  (AllValues-insert AreBalanced c _ ws.clusters
                    (AllValues-delete IsBalanced n m (rw e' at balanced)) h))
        ]
  ]

  -- Operations on reservations leave the clusters alone.
  create_reservation-clusters :
      (r : GpuReservation) (ws : WorldState F) → (create_reservation r ws).0.clusters ≡ ws.clusters
  unfolding create_reservation
  create_reservation-clusters r ws = ground arith

  close_reservation-clusters :
      (status : ReservationStatus) (id : String) (ws : WorldState F)
      → (close_reservation status id ws).0.clusters ≡ ws.clusters
  unfolding close_reservation
  close_reservation-clusters status id ws = ground arith

  -- Every call keeps the nodes balanced.
  pub apply-AreBalanced :
      (c : Call F) (ws : WorldState F)
      → IsAdmissible c
      → AllValues AreBalanced ws.clusters
      → AllValues AreBalanced (apply c ws).clusters
  unfolding apply upsert_cluster upsert_application upsert_performance_profile update_vllm_metrics
      update_cache_locations fulfill_reservation expire_reservation record_scale_event
      increment_scale_down_signal expire_stale_reservations
  apply-AreBalanced (upserts_cluster c) ws a h =
      AllValues-insert AreBalanced c.cluster_id c ws.clusters a h
  apply-AreBalanced (upserts_node n) ws a h = upsert_node-AreBalanced n ws a h
  apply-AreBalanced (removes_node c n) ws a h = remove_node-AreBalanced c n ws h
  apply-AreBalanced (upserts_replica r) ws a h = upsert_replica-AreBalanced r ws h
  apply-AreBalanced (deletes_replica id) ws a h = delete_replica-AreBalanced id ws h
  apply-AreBalanced (creates_reservation r) ws a h = rw (create_reservation-clusters r ws) h
  apply-AreBalanced (fulfills_reservation id) ws a h =
      rw (close_reservation-clusters ReservationStatus.fulfilled id ws) h
  apply-AreBalanced (expires_reservation id) ws a h =
      rw (close_reservation-clusters ReservationStatus.expired id ws) h
  apply-AreBalanced _ ws a h = h
