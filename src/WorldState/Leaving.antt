-- ===== src/WorldState/Leaving.antt =====
-- internal/worldstate/worldstate.go: a replica that joins with UpsertReplica and leaves with DeleteReplica.
use schedulator.Prelude.{
  ℤ, 0ℤ, 1ℤ, ◌+ℤ◌, ◌-ℤ◌, int_laws, String, ◌==◌, eq_iff, Bool, false, ◌&&◌, List, [], ◌∷◌, ◌++◌,
  Option, none, some, Map, lookup, insert, delete, lookup-insert, lookup-delete, any, ◌≡◌, refl, ap,
  ◌∙◌, subst, if◌then◌else◌, arith, Bool-cases, Option-cases, inl, inr,
}
use schedulator.Floats.{Float64}
use schedulator.Model.{ReplicaStatus, Node, Cluster, Replica}
use schedulator.WorldState.{
  WorldState, node_map, bump, remove_from_slice, vacate, occupy, at_node, restore_node_gpus,
  allocate_node_gpus, rescore, compute_fragmentation, upsert_replica, delete_replica,
}

remove-append :
    (pods : List String) (id : String)
    → any (λ p. p == id) pods ≡ false
    → remove_from_slice (pods ++ id ∷ []) id ≡ pods
unfolding remove_from_slice
remove-append [] id h = ground (arith, eq_iff id id)
remove-append (p ∷ pods) id h = ground (arith, h, remove-append pods id)

vacate-occupy :
    (r : Replica) (n : Node)
    → any (λ p. p == r.replica_id) n.pods ≡ false
    → vacate r (occupy r n) ≡ n
vacate-occupy r n h =
    let back : n.allocated_gpus +ℤ r.gpus -ℤ r.gpus ≡ n.allocated_gpus = omega int_laws in
    let freed : n.free_gpus -ℤ r.gpus +ℤ r.gpus ≡ n.free_gpus = omega int_laws in
    ap (λ a. record (vacate r (occupy r n)) { allocated_gpus = a }) back
    ∙ ap (λ f. record (vacate r (occupy r n)) { allocated_gpus = n.allocated_gpus; free_gpus = f })
        freed
    ∙ ap (λ p. record n { pods = p }) (remove-append n.pods r.replica_id h)

abbrev changed : (Node → Node) → Option Node → Option Node
changed f none = none
changed f (some n) = some (f n)

-- Whether a node, if it is there, holds a pod.
abbrev pub holds_pod : String → Option Node → Bool
holds_pod id none = false
holds_pod id (some n) = any (λ p. p == id) n.pods

changed_back :
    (r : Replica) (o : Option Node)
    → holds_pod r.replica_id o ≡ false
    → changed (vacate r) (changed (occupy r) o) ≡ o
changed_back r none h = refl
changed_back r (some n) h = ap (λ m. some m) (vacate-occupy r n h)

bump_back : (t s : ReplicaStatus) (g : ReplicaStatus → ℤ) → bump t (0ℤ -ℤ 1ℤ) (bump t 1ℤ g) s ≡ g s
bump_back t s g = let back : g s +ℤ 1ℤ +ℤ (0ℤ -ℤ 1ℤ) ≡ g s = omega int_laws in ground (arith, back)

module _ {F : Type 0} where
  -- The node of a cluster, if both are there.
  abbrev pub node_at : String → String → Map (Cluster F) → Option Node
  node_at k j clusters = elim (lookup k clusters) [ none ↦ none | some c ↦ lookup j (node_map c) ]

  node_at-at_node :
      (f : Node → Node) (r : Replica) (k j : String) (clusters : Map (Cluster F))
      → node_at k j (at_node f r clusters) ≡ (
          if r.cluster_id == k && r.node_id == j
          then changed f (node_at k j clusters)
          else node_at k j clusters)
  unfolding at_node
  node_at-at_node f r k j clusters = elim (Option-cases (lookup r.cluster_id clusters)) [
    | inl gone ↦ rw (gone, at_node) (ground (arith, gone, eq_iff r.cluster_id k))
    | inr (c, found) ↦ elim (Option-cases (lookup r.node_id (node_map c))) [
      | inl missing ↦
          rw (found, at_node)
            (rw (missing, at_node)
              (ground (arith, found, missing, eq_iff r.cluster_id k, eq_iff r.node_id j)))
      | inr (n, known) ↦
          rw (found, at_node)
            (rw (known, at_node)
              (ground (
                arith,
                found,
                known,
                eq_iff r.cluster_id k,
                eq_iff r.node_id j,
                lookup-insert r.cluster_id k
                    (record c { nodes = some (insert r.node_id (f n) (node_map c)) }) clusters,
                lookup-insert r.node_id j (f n) (node_map c),
              )))
    ]
  ]

module _ {F : Type 0} ⦃fl : Float64 F⦄ where
  node_at-rescore :
      (id k j : String) (clusters : Map (Cluster F))
      → node_at k j (rescore id clusters) ≡ node_at k j clusters
  unfolding rescore
  node_at-rescore id k j clusters = elim (Option-cases (lookup id clusters)) [
    | inl gone ↦ rw (gone, rescore) refl
    | inr (c, found) ↦
        rw (found, rescore)
          (ground (
            arith,
            found,
            eq_iff id k,
            lookup-insert id k
                (record c { fragmentation_score = compute_fragmentation (node_map c) }) clusters,
          ))
  ]

  joined_fields :
      (r : Replica) (ws : WorldState F)
      → lookup r.replica_id ws.replicas ≡ none
      → ((upsert_replica r ws).clusters ≡ rescore r.cluster_id (at_node (occupy r) r ws.clusters))
        × ((upsert_replica r ws).replicas ≡ insert r.replica_id r ws.replicas)
        × ((upsert_replica r ws).replicas_gauge ≡ bump r.status 1ℤ ws.replicas_gauge)
  unfolding upsert_replica allocate_node_gpus
  joined_fields r ws fresh = rw (fresh, upsert_replica) (refl, refl, refl)

  left_fields :
      (r : Replica) (ws : WorldState F)
      → lookup r.replica_id ws.replicas ≡ some r
      → ((delete_replica r.replica_id ws).clusters
          ≡ rescore r.cluster_id (at_node (vacate r) r ws.clusters))
        × ((delete_replica r.replica_id ws).replicas ≡ delete r.replica_id ws.replicas)
        × ((delete_replica r.replica_id ws).replicas_gauge
            ≡ bump r.status (0ℤ -ℤ 1ℤ) ws.replicas_gauge)
  unfolding delete_replica restore_node_gpus
  left_fields r ws found = rw (found, delete_replica) (refl, refl, refl)

  node_back :
      (r : Replica) (k j : String) (clusters : Map (Cluster F))
      → holds_pod r.replica_id (node_at r.cluster_id r.node_id clusters) ≡ false
      → node_at k j (
          rescore r.cluster_id
            (at_node (vacate r) r (rescore r.cluster_id (at_node (occupy r) r clusters))))
        ≡ node_at k j clusters
  node_back r k j clusters free =
      let inner = rescore r.cluster_id (at_node (occupy r) r clusters) in
      let kept = node_at-rescore r.cluster_id k j (at_node (occupy r) r clusters) in
      node_at-rescore r.cluster_id k j (at_node (vacate r) r inner)
      ∙ node_at-at_node (vacate r) r k j inner
      ∙ elim (Bool-cases (r.cluster_id == k && r.node_id == j)) [
        | inr miss ↦ rw miss (kept ∙ node_at-at_node (occupy r) r k j clusters ∙ rw miss refl)
        | inl hit ↦
            let cluster : r.cluster_id ≡ k = ground (arith, hit, eq_iff r.cluster_id k) in
            let node : r.node_id ≡ j = ground (arith, hit, eq_iff r.node_id j) in
            let unheld =
              subst (λ y. holds_pod r.replica_id (node_at k y clusters) ≡ false) node
                (subst (λ x. holds_pod r.replica_id (node_at x r.node_id clusters) ≡ false) cluster
                  free) in
            let occupied : node_at k j inner ≡ changed (occupy r) (node_at k j clusters) =
              kept ∙ node_at-at_node (occupy r) r k j clusters ∙ rw hit refl in
            rw hit (ap (changed (vacate r)) occupied ∙ changed_back r (node_at k j clusters) unheld)
      ]

  -- What a replica's joining and leaving bring back.
  pub record IsBack (id k j : String) (s : ReplicaStatus) (v w : WorldState F) : Type 0 where
    pub same_replica : lookup id v.replicas ≡ lookup id w.replicas
    pub same_node : node_at k j v.clusters ≡ node_at k j w.clusters
    pub same_gauge : v.replicas_gauge s ≡ w.replicas_gauge s

  -- A replica that is new, and whose identifier is not among the pods of its node, leaves everything as
  -- it was when it joins and is deleted again: each replica, each node with its GPUs and its pods,
  -- and each gauge of replicas.
  pub delete_replica-upsert_replica :
      (r : Replica) (ws : WorldState F) (id k j : String) (s : ReplicaStatus)
      → lookup r.replica_id ws.replicas ≡ none
      → holds_pod r.replica_id (node_at r.cluster_id r.node_id ws.clusters) ≡ false
      → IsBack id k j s (delete_replica r.replica_id (upsert_replica r ws)) ws
  delete_replica-upsert_replica r ws id k j s fresh free =
      let joined = upsert_replica r ws in
      let (clusters, replicas, gauge) = joined_fields r ws fresh in
      let found : lookup r.replica_id joined.replicas ≡ some r =
        ap (lookup r.replica_id) replicas
        ∙ ground (
          arith,
          eq_iff r.replica_id r.replica_id,
          lookup-insert r.replica_id r.replica_id r ws.replicas,
        ) in
      let (after, left, count) = left_fields r joined found in
      record {
        same_replica =
            ap (lookup id) (left ∙ ap (delete r.replica_id) replicas)
            ∙ ground (
              arith,
              fresh,
              eq_iff r.replica_id id,
              lookup-delete r.replica_id id (insert r.replica_id r ws.replicas),
              lookup-insert r.replica_id id r ws.replicas,
            );
        same_node =
            ap (node_at k j)
              (after ∙ ap (λ m. rescore r.cluster_id (at_node (vacate r) r m)) clusters)
            ∙ node_back r k j ws.clusters free;
        same_gauge =
            ap (λ g. g s) (count ∙ ap (bump r.status (0ℤ -ℤ 1ℤ)) gauge)
            ∙ bump_back r.status s ws.replicas_gauge;
      }
