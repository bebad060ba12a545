-- ===== src/WorldState/Calls/Clusters.antt =====
-- internal/worldstate/worldstate.go: the gauge of clusters over the calls.
use schedulator.Prelude.{
  pos, ◌≡◌, refl, sym, ap, ◌∙◌, String, ◌==◌, [], ◌∷◌, Option, none, some, Map, lookup, insert,
  length, arith, Option-cases, Bool-cases, inl, inr,
}
use schedulator.Floats.{Float64}
use schedulator.Model.{Node, Cluster, Replica, GpuReservation, ReservationStatus}
use schedulator.WorldState.{
  WorldState, vacate, occupy, node_map, at_node, restore_node_gpus, allocate_node_gpus, rescore,
  rescore_old, leave, place, moves, upsert_cluster, upsert_node, remove_node, upsert_application,
  upsert_performance_profile, upsert_replica, delete_replica, update_vllm_metrics,
  update_cache_locations, create_reservation, close_reservation, fulfill_reservation,
  expire_reservation, record_scale_event, increment_scale_down_signal, expire_stale_reservations,
}
use schedulator.WorldState.Calls.{
  Call, upserts_cluster, upserts_node, removes_node, upserts_replica, deletes_replica,
  creates_reservation, fulfills_reservation, expires_reservation, apply,
}

length-insert :
    {V : Type 0} (k : String) (v w : V) (m : Map V)
    → lookup k m ≡ some w
    → length (insert k v m) ≡ length m
length-insert k v w [] h = absurd (ground (arith, h))
length-insert k v w ((j, u) ∷ m) h = ground (arith, length-insert k v w m)

module _ {F : Type 0} where
  length-at_node :
      (f : Node → Node) (r : Replica) (m : Map (Cluster F)) → length (at_node f r m) ≡ length m
  unfolding at_node
  length-at_node f r m = elim (Option-cases (lookup r.cluster_id m)) [
    | inl e ↦ rw (e, at_node) refl
    | inr (c, e) ↦ elim (Option-cases (lookup r.node_id (node_map c))) [
      | inl gone ↦ rw (e, at_node) (rw (gone, at_node) refl)
      | inr (n, known) ↦ rw (e, at_node) (rw (known, at_node) (length-insert r.cluster_id _ c m e))
    ]
  ]

  abbrev IsCounted : WorldState F → Type 0
  IsCounted ws = ws.clusters_gauge ≡ pos (length ws.clusters)

  SameClusters : WorldState F → WorldState F → Type 0
  SameClusters v w = (v.clusters_gauge ≡ w.clusters_gauge) × (length v.clusters ≡ length w.clusters)

  SameClusters-IsCounted : (v w : WorldState F) → SameClusters v w → IsCounted w → IsCounted v
  unfolding SameClusters
  SameClusters-IsCounted v w (gauge, size) h = gauge ∙ h ∙ ap pos (sym size)

module _ {F : Type 0} ⦃fl : Float64 F⦄ where
  length-rescore : (id : String) (m : Map (Cluster F)) → length (rescore id m) ≡ length m
  unfolding rescore
  length-rescore id m = elim (Option-cases (lookup id m)) [
    | inl e ↦ rw (e, rescore) refl
    | inr (c, e) ↦ rw (e, rescore) (length-insert id _ c m e)
  ]

  remove_node-SameClusters :
      (c n : String) (ws : WorldState F) → SameClusters (remove_node c n ws) ws
  unfolding remove_node SameClusters
  remove_node-SameClusters id n ws = elim (Option-cases (lookup id ws.clusters)) [
    | inl e ↦ rw (e, remove_node) (refl, refl)
    | inr (c, e) ↦ elim (Option-cases c.nodes) [
      | inl none_yet ↦ rw (e, remove_node) (rw (none_yet, remove_node) (refl, refl))
      | inr (m, known) ↦
          rw (e, remove_node) (rw (known, remove_node) (refl, length-insert id _ c ws.clusters e))
    ]
  ]

  delete_replica-SameClusters :
      (id : String) (ws : WorldState F) → SameClusters (delete_replica id ws) ws
  unfolding delete_replica SameClusters restore_node_gpus
  delete_replica-SameClusters id ws = elim (Option-cases (lookup id ws.replicas)) [
    | inl e ↦ rw (e, delete_replica) (refl, refl)
    | inr (r, e) ↦
        rw (e, delete_replica)
          (refl, length-rescore r.cluster_id _ ∙ length-at_node (vacate r) r ws.clusters)
  ]

  length-leave :
      (old : Option Replica) (r : Replica) (m : Map (Cluster F)) → length (leave old r m) ≡ length m
  unfolding restore_node_gpus
  length-leave none r m = refl
  length-leave (some old) r m = elim (Bool-cases (moves (some old) r)) [
    | inl moved ↦ rw moved (length-at_node (vacate old) old m)
    | inr stays ↦ rw stays refl
  ]

  length-place :
      (old : Option Replica) (r : Replica) (m : Map (Cluster F)) → length (place old r m) ≡ length m
  unfolding allocate_node_gpus
  length-place old r m = elim (Bool-cases (moves old r)) [
    | inl moved ↦ rw moved (length-at_node (occupy r) r m)
    | inr stays ↦ rw stays refl
  ]

  length-rescore_old :
      (old : Option Replica) (r : Replica) (m : Map (Cluster F))
      → length (rescore_old old r m) ≡ length m
  length-rescore_old none r m = refl
  length-rescore_old (some old) r m = elim (Bool-cases (old.cluster_id == r.cluster_id)) [
    | inl same ↦ rw same refl
    | inr other ↦ rw other (length-rescore old.cluster_id m)
  ]

  upsert_replica-SameClusters :
      (r : Replica) (ws : WorldState F) → SameClusters (upsert_replica r ws) ws
  unfolding upsert_replica SameClusters
  upsert_replica-SameClusters r ws =
      let old = lookup r.replica_id ws.replicas in
      (
        refl,
        length-rescore_old old r _
            ∙ length-rescore r.cluster_id _
            ∙ length-place old r _
            ∙ length-leave old r ws.clusters,
      )

  create_reservation-SameClusters :
      (r : GpuReservation) (ws : WorldState F) → SameClusters (create_reservation r ws).0 ws
  unfolding create_reservation SameClusters
  create_reservation-SameClusters r ws = ground arith

  close_reservation-SameClusters :
      (status : ReservationStatus) (id : String) (ws : WorldState F)
      → SameClusters (close_reservation status id ws).0 ws
  unfolding close_reservation SameClusters
  close_reservation-SameClusters status id ws = ground arith

  -- The gauge counts the clusters after every call.
  pub apply-counted :
      (c : Call F) (ws : WorldState F)
      → ws.clusters_gauge ≡ pos (length ws.clusters)
      → (apply c ws).clusters_gauge ≡ pos (length (apply c ws).clusters)
  unfolding apply upsert_cluster upsert_node upsert_application upsert_performance_profile
      update_vllm_metrics update_cache_locations fulfill_reservation expire_reservation
      record_scale_event increment_scale_down_signal expire_stale_reservations
  apply-counted (upserts_cluster c) ws h = refl
  apply-counted (upserts_node n) ws h = refl
  apply-counted (removes_node c n) ws h =
      SameClusters-IsCounted (remove_node c n ws) ws (remove_node-SameClusters c n ws) h
  apply-counted (upserts_replica r) ws h =
      SameClusters-IsCounted (upsert_replica r ws) ws (upsert_replica-SameClusters r ws) h
  apply-counted (deletes_replica id) ws h =
      SameClusters-IsCounted (delete_replica id ws) ws (delete_replica-SameClusters id ws) h
  apply-counted (creates_reservation r) ws h =
      SameClusters-IsCounted (create_reservation r ws).0 ws (create_reservation-SameClusters r ws) h
  apply-counted (fulfills_reservation id) ws h =
      SameClusters-IsCounted (close_reservation ReservationStatus.fulfilled id ws).0 ws
        (close_reservation-SameClusters ReservationStatus.fulfilled id ws) h
  apply-counted (expires_reservation id) ws h =
      SameClusters-IsCounted (close_reservation ReservationStatus.expired id ws).0 ws
        (close_reservation-SameClusters ReservationStatus.expired id ws) h
  apply-counted _ ws h = h
