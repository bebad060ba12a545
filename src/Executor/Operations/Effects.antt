-- ===== src/Executor/Operations/Effects.antt =====
-- internal/executor/operations.go: what an operation that succeeds, or fails, has done.
use schedulator.Prelude.{
  ℕ, suc, String, [], ◌∷◌, Option, none, some, lookup, ◌≡◌, refl, ap, ◌∙◌, subst, ◌⊎◌, inl, inr,
  Bool-cases, Option-cases, arith, ◌+ℤ◌,
}
use schedulator.Model.{Duration, seconds, ReplicaStatus, Replica}
use schedulator.Model.Plans.{
  ScaleUpDecision, ScaleDownDecision, PreemptionDecision, Payload, scaling_up, scaling_down,
  preempting, unsupported, Operation,
}
use schedulator.WorldState.Snapshot.{Snapshot}
use schedulator.Executor.Operations.{
  ExecutorConfig, Answer, value, error, Client, WaitError, context_done, OpError, create_failed,
  label_failed, delete_failed, Dispatched, and_then, and_then_with, polls, is_running_yet,
  is_deleted_yet, poll_until, wait_for_running, wait_for_deletion, end_scale_up, end_deletion,
  scale_up, preempt, scale_down, reservation_ttl, with_client, dispatch_op,
}

module _ {S E : Type 0} (client : Client S E) where
  -- The last poll of a wait that was not cut off.
  abbrev IsPolled :
      (Answer ReplicaStatus E → Option (Option (WaitError E)))
      → String
      → Option (WaitError E)
      → S
      → Type 0
  IsPolled verdict id r s =
      (t : S) × (answer : Answer ReplicaStatus E) × (client.get_replica_status id t ≡ (answer, s))
      × (verdict answer ≡ some r)

  poll_until-IsPolled :
      (verdict : Answer ReplicaStatus E → Option (Option (WaitError E))) (id : String) (left : ℕ)
      (s : S)
      → ((poll_until client verdict id left s).0 ≡ some context_done)
        ⊎ IsPolled verdict id
            (poll_until client verdict id left s).0
            (poll_until client verdict id left s).1
  unfolding poll_until
  poll_until-IsPolled verdict id ℕ.zero s =
      let a = client.get_replica_status id s in
      elim (Option-cases (verdict a.0)) [
        | inl wait ↦ rw (wait, poll_until) (inl refl)
        | inr (r, done) ↦ rw (done, poll_until) (inr (s, a.0, refl, done))
      ]
  poll_until-IsPolled verdict id (suc left) s =
      let a = client.get_replica_status id s in
      elim (Option-cases (verdict a.0)) [
        | inr (r, done) ↦ rw (done, poll_until) (inr (s, a.0, refl, done))
        | inl wait ↦
            rw (wait, poll_until)
              (elim (Bool-cases (client.pause a.1).0) [
                | inl fired ↦ rw fired (poll_until-IsPolled verdict id left (client.pause a.1).1)
                | inr over ↦ rw over (inl refl)
              ])
      ]

module _ {E : Type 0} where
  running_answer :
      (a : Answer ReplicaStatus E) → is_running_yet a ≡ some none → a ≡ value ReplicaStatus.running
  running_answer (error e) h = absurd (ground (arith, h))
  running_answer (value ReplicaStatus.running) h = refl
  running_answer (value ReplicaStatus.pending) h = absurd (ground (arith, h))
  running_answer (value ReplicaStatus.draining) h = absurd (ground (arith, h))
  running_answer (value ReplicaStatus.terminated) h = absurd (ground (arith, h))

  deleted_answer :
      (a : Answer ReplicaStatus E)
      → is_deleted_yet a ≡ some none
      → (a ≡ value ReplicaStatus.terminated) ⊎ ((e : E) × (a ≡ error e))
  deleted_answer (error e) h = inr (e, refl)
  deleted_answer (value ReplicaStatus.running) h = absurd (ground (arith, h))
  deleted_answer (value ReplicaStatus.pending) h = absurd (ground (arith, h))
  deleted_answer (value ReplicaStatus.draining) h = absurd (ground (arith, h))
  deleted_answer (value ReplicaStatus.terminated) h = inl refl

abbrev pub IsGone : {S : Type 0} → (String → S → Option ReplicaStatus) → String → S → Type 0
IsGone present id s = (present id s ≡ none) ⊎ (present id s ≡ some ReplicaStatus.terminated)

module _ {S E : Type 0} (present : String → S → Option ReplicaStatus) where
  -- A client whose answers without an error are true: a status is that of the replica in the cluster,
  -- and "terminated" stands also for a replica that is not there. An error says nothing.
  pub record Reports (client : Client S E) : Type 0 where
    pub value_reported :
        (id : String) (s : S) (status : ReplicaStatus)
        → (client.get_replica_status id s).0 ≡ value status
        → (present id (client.get_replica_status id s).1 ≡ some status)
          ⊎ ((status ≡ ReplicaStatus.terminated)
              × (present id (client.get_replica_status id s).1 ≡ none))

  -- The replica is gone, or the last question for its status gave an error.
  abbrev pub IsDeleted : Client S E → String → S → Type 0
  IsDeleted client id s =
      IsGone present id s ⊎ ((t : S) × (e : E) × (client.get_replica_status id t ≡ (error e, s)))

  abbrev pub IsStarted : Client S E → ScaleUpDecision → S → S → Type 0
  IsStarted client d start s =
      (id : String) × ((client.create_replica d.app_id d.scheduling_constraints start).0 ≡ value id)
      × (present id s ≡ some ReplicaStatus.running)

module _ {S E : Type 0} (present : String → S → Option ReplicaStatus) where
  module _ (client : Client S E) (laws : Reports present client) where
    wait_for_running_lem :
        (id : String) (left : ℕ) (s : S)
        → (wait_for_running client id left s).0 ≡ none
        → present id (wait_for_running client id left s).1 ≡ some ReplicaStatus.running
    unfolding wait_for_running
    wait_for_running_lem id left s h = elim (poll_until-IsPolled client is_running_yet id left s) [
      | inl cut ↦ absurd (ground (arith, h, cut))
      | inr polled ↦
          let (t, answer, seen, verdict) = polled in
          let running = running_answer answer (verdict ∙ ap some h) in
          subst (λ u. present id u ≡ some ReplicaStatus.running) (ap (λ p. p.1) seen)
            (elim (laws.value_reported id t ReplicaStatus.running (ap (λ p. p.0) seen ∙ running)) [
              | inl there ↦ there
              | inr (other, missing) ↦ absurd (ground (arith, other))
            ])
    ]

    wait_for_deletion_lem :
        (id : String) (left : ℕ) (s : S)
        → (wait_for_deletion client id left s).0 ≡ none
        → IsDeleted present client id (wait_for_deletion client id left s).1
    unfolding wait_for_deletion
    wait_for_deletion_lem id left s h = elim (poll_until-IsPolled client is_deleted_yet id left s) [
      | inl cut ↦ absurd (ground (arith, h, cut))
      | inr polled ↦
          let (t, answer, seen, verdict) = polled in
          elim (deleted_answer answer (verdict ∙ ap some h)) [
            | inl terminated ↦ inl (
                subst (IsGone present id) (ap (λ p. p.1) seen)
                  (elim (laws.value_reported id t ReplicaStatus.terminated
                    (ap (λ p. p.0) seen ∙ terminated)) [
                      | inl there ↦ inr there
                      | inr (same, missing) ↦ inl missing
                    ]))
            | inr (e, failed) ↦
                inr (t, e, seen ∙ ap (λ a. (a, (wait_for_deletion client id left s).1)) failed)
          ]
    ]

    end_deletion-IsDeleted :
        (id : String) (r : Option (WaitError E) × S)
        → (r.0 ≡ none → IsDeleted present client id r.1)
        → (end_deletion client r).failure ≡ none
        → IsDeleted present client id (end_deletion client r).clusters
    end_deletion-IsDeleted id (none, s) gone h = gone refl
    end_deletion-IsDeleted id (some e, s) gone h = absurd (ground (arith, h))

    end_scale_up-running :
        (d : ScaleUpDecision) (id : String) (r : Option (WaitError E) × S)
        → (r.0 ≡ none → present id r.1 ≡ some ReplicaStatus.running)
        → (end_scale_up client d id r).failure ≡ none
        → present id (end_scale_up client d id r).clusters ≡ some ReplicaStatus.running
    unfolding end_scale_up
    end_scale_up-running d id (none, s) runs h = runs refl
    end_scale_up-running d id (some e, s) runs h = absurd (ground (arith, h))

    -- A failure of a call ends the operation with an error.
    and_then-goal :
        (goal : S → Type 0) (wrap : E → OpError E) (r : Option E × S) (act : S → Dispatched S E)
        → ((s : S) → (act s).failure ≡ none → goal (act s).clusters)
        → (and_then wrap r act).failure ≡ none
        → goal (and_then wrap r act).clusters
    and_then-goal goal wrap (some e, s) act h ok = absurd (ground (arith, ok))
    and_then-goal goal wrap (none, s) act h ok = h s ok

    scale_up-IsStarted :
        (cfg : ExecutorConfig) (d : ScaleUpDecision) (ttl : Duration) (s : S)
        → (scale_up client cfg d ttl s).failure ≡ none
        → IsStarted present client d s (scale_up client cfg d ttl s).clusters
    unfolding scale_up
    scale_up-IsStarted cfg d ttl s = go (client.create_replica d.app_id d.scheduling_constraints s)
      where
        go :
            (r : Answer String E × S)
            → let done = and_then_with create_failed r (λ id s1.
              end_scale_up client d id
                (wait_for_running client id (polls ttl cfg.poll_interval) s1)) in
              done.failure ≡ none
              → (id : String) × (r.0 ≡ value id)
                × (present id done.clusters ≡ some ReplicaStatus.running)
        go (error e, s1) ok = absurd (ground (arith, ok))
        go (value id, s1) ok = (
          id,
          refl,
          end_scale_up-running d id (wait_for_running client id (polls ttl cfg.poll_interval) s1)
              (wait_for_running_lem id (polls ttl cfg.poll_interval) s1) ok,
        )

    scale_down-IsDeleted :
        (cfg : ExecutorConfig) (d : ScaleDownDecision) (s : S)
        → (scale_down client cfg d s).failure ≡ none
        → IsDeleted present client d.replica_id (scale_down client cfg d s).clusters
    unfolding scale_down
    scale_down-IsDeleted cfg d s =
        let left = polls cfg.wait_for_deletion_timeout cfg.poll_interval in
        and_then-goal (IsDeleted present client d.replica_id) delete_failed
          (client.delete_replica d.replica_id s)
          (λ s1. end_deletion client (wait_for_deletion client d.replica_id left s1))
          (λ s1.
            end_deletion-IsDeleted d.replica_id (wait_for_deletion client d.replica_id left s1)
              (wait_for_deletion_lem d.replica_id left s1))

    preempt-IsDeleted :
        (cfg : ExecutorConfig) (d : PreemptionDecision) (s : S)
        → (preempt client cfg d s).failure ≡ none
        → IsDeleted present client d.victim_replica_id (preempt client cfg d s).clusters
    unfolding preempt
    preempt-IsDeleted cfg d s =
        let id = d.victim_replica_id in
        let left =
          polls (cfg.wait_for_deletion_timeout +ℤ seconds d.grace_period_seconds)
            cfg.poll_interval in
        and_then-goal (IsDeleted present client id) label_failed
          (client.label_replica id (("draining", "true") ∷ []) s)
          (λ s1.
            and_then delete_failed (client.delete_replica id s1)
              (λ s2. end_deletion client (wait_for_deletion client id left s2)))
          (λ s1.
            and_then-goal (IsDeleted present client id) delete_failed (client.delete_replica id s1)
              (λ s2. end_deletion client (wait_for_deletion client id left s2))
              (λ s2.
                end_deletion-IsDeleted id (wait_for_deletion client id left s2)
                  (wait_for_deletion_lem id left s2)))

module _ {F S E : Type 0} (cfg : ExecutorConfig) (clients : String → Option (Client S E))
    (snap : Snapshot F) where
  with_client-goal :
      (goal : S → Type 0) (cluster_id : String) (act : Client S E → S → Dispatched S E) (s : S)
      → ((client : Client S E)
          → clients cluster_id ≡ some client
          → (act client s).failure ≡ none
          → goal (act client s).clusters)
      → (with_client cfg clients snap cluster_id act s).failure ≡ none
      → goal (with_client cfg clients snap cluster_id act s).clusters
  unfolding with_client
  with_client-goal goal cluster_id act s h ok = elim (Option-cases (clients cluster_id)) [
    | inl nobody ↦ absurd (ground (arith, ok, nobody))
    | inr (client, found) ↦ rw (found, with_client) (h client found (rw (found, with_client) at ok))
  ]

  -- On the client of a cluster.
  abbrev On : String → (Client S E → Type 0) → Type 0
  On cluster_id goal = (client : Client S E) × (clients cluster_id ≡ some client) × goal client

  -- What an operation is for, from the clusters before it to those after it.
  abbrev pub HasEffect : (String → S → Option ReplicaStatus) → Payload → S → S → Type 0
  HasEffect present (scaling_up d) start s =
      On d.cluster_id (λ client. IsStarted present client d start s)
  HasEffect present (preempting d) start s =
      On d.cluster_id (λ client. IsDeleted present client d.victim_replica_id s)
  HasEffect present (scaling_down d) start s =
      (r : Replica) × (lookup d.replica_id snap.replicas ≡ some r)
      × On r.cluster_id (λ client. IsDeleted present client d.replica_id s)
  HasEffect present unsupported start s = ⊥

  -- When the answers of every client that are not errors are true: after an operation without an error,
  -- for a scale-up the replica that its cluster's client created runs; for a preemption or a
  -- scale-down the replica is gone or terminated, or its cluster's client answered the last question
  -- for its status with an error.
  pub dispatch_op-HasEffect :
      (present : String → S → Option ReplicaStatus)
      → ((cluster_id : String) (client : Client S E)
          → clients cluster_id ≡ some client
          → Reports present client)
      → (op : Operation) (s : S) → (dispatch_op cfg clients snap op s).failure ≡ none
      → HasEffect present op.payload s (dispatch_op cfg clients snap op s).clusters
  unfolding dispatch_op
  dispatch_op-HasEffect present laws op s = go op.payload
    where
      go :
          (p : Payload)
          → let done = dispatch_op cfg clients snap (record op { payload = p }) s in
            done.failure ≡ none → HasEffect present p s done.clusters
      go (scaling_up d) ok =
          with_client-goal (HasEffect present (scaling_up d) s) d.cluster_id
            (λ client. scale_up client cfg d (reservation_ttl cfg clients snap d.reservation_id)) s
            (λ client found ended. (
              client,
              found,
              scale_up-IsStarted present client (laws d.cluster_id client found) cfg d
                  (reservation_ttl cfg clients snap d.reservation_id) s ended,
            ))
            ok
      go (preempting d) ok =
          with_client-goal (HasEffect present (preempting d) s) d.cluster_id
            (λ client. preempt client cfg d) s
            (λ client found ended. (
              client,
              found,
              preempt-IsDeleted present client (laws d.cluster_id client found) cfg d s ended,
            ))
            ok
      go (scaling_down d) ok = elim (Option-cases (lookup d.replica_id snap.replicas)) [
        | inl missing ↦ absurd (ground (arith, ok, missing))
        | inr (r, known) ↦ (
          r,
          known,
          rw (known, dispatch_op)
              (with_client-goal
                (λ t. On r.cluster_id (λ client. IsDeleted present client d.replica_id t))
                r.cluster_id (λ client. scale_down client cfg d) s
                (λ client found ended. (
                  client,
                  found,
                  scale_down-IsDeleted present client (laws r.cluster_id client found) cfg d s
                      ended,
                ))
                (rw (known, dispatch_op) at ok)),
        )
      ]
      go unsupported ok = absurd (ground (arith, ok))
