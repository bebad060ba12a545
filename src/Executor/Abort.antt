-- ===== src/Executor/Abort.antt =====
-- internal/executor/executor.go: the search of abortTransitive, its end and what it changes.
use schedulator.Prelude.{
  ℕ, suc, ◌+◌, ◌≤◌, String, ◌==◌, eq_iff, true, false, List, [], ◌∷◌, ◌++◌, Map, insert,
  lookup-insert, listed, any-append, length, length-append, ◌≡◌, ◌≢◌, refl, ◌⊎◌, inl, inr, arith,
  if◌then◌else◌, Bool-cases, sym, subst, ◌&&◌,
}
use schedulator.Executor.{
  OpStatus, op_pending, op_in_flight, op_completed, op_failed, op_aborted, is_pending, status_of,
  is_in, Aborting, abort_one, abort_loop, edges_beyond, abort_transitive,
}

-- The operations that wait for an operation, directly or through others.
pub data Awaits (dependents : Map (List String)) (a : String) : String → Type 0 where
  direct : (b : String) → is_in b (listed a dependents) ≡ true → Awaits dependents a b
  further :
      (b c : String)
      → Awaits dependents a b
      → is_in c (listed b dependents) ≡ true
      → Awaits dependents a c

pub status_of-insert :
    (k j : String) (v : OpStatus) (m : Map OpStatus)
    → status_of j (insert k v m) ≡ (if k == j then v else status_of j m)
status_of-insert k j v m = ground (arith, lookup-insert k j v m)

pending_eq : (s : OpStatus) → is_pending s ≡ true → s ≡ op_pending
pending_eq op_pending h = refl
pending_eq op_in_flight h = ground (arith, h)
pending_eq op_completed h = ground (arith, h)
pending_eq op_failed h = ground (arith, h)
pending_eq op_aborted h = ground (arith, h)

abort_one_lem :
    (id j : String) (a : Aborting)
    → status_of j (abort_one id a).status
      ≡ (if id == j && is_pending (status_of j a.status) then op_aborted else status_of j a.status)
abort_one_lem id j a = ground (arith, status_of-insert id j op_aborted a.status, eq_iff id j)

edges_beyond-le :
    (id : String) (visited : List String) (m : Map (List String))
    → is_in id visited ≡ false
    → edges_beyond (id ∷ visited) m + length (listed id m) ≤ edges_beyond visited m
unfolding edges_beyond
edges_beyond-le id visited [] h = ground arith
edges_beyond-le id visited ((k, ids) ∷ m) h =
    ground (arith, edges_beyond-le id visited m h, eq_iff id k, eq_iff k id)

module _ (dependents : Map (List String)) (failed_id : String) (status : Map OpStatus) where
  -- What an identifier's status may become.
  abbrev pub IsAborted : Map OpStatus → String → Type 0
  IsAborted after id =
      (status_of id status ≡ op_pending)
      × (status_of id after ≡ op_aborted)
      × Awaits dependents failed_id id

  -- The invariant of the search.
  record IsSearch (queue visited : List String) (after : Map OpStatus) : Type 0 where
    settled :
        (id : String)
        → is_in id visited ≡ true
        → (failed_id ≡ id) ⊎ (is_pending (status_of id after) ≡ false)
    closed :
        (id next : String)
        → is_in id visited ≡ true
        → is_in next (listed id dependents) ≡ true
        → (is_in next visited ≡ true) ⊎ (is_in next queue ≡ true)
    awaiting : (id : String) → is_in id queue ≡ true → Awaits dependents failed_id id
    changed : (id : String) → (status_of id after ≡ status_of id status) ⊎ IsAborted after id
    begun : is_in failed_id visited ≡ true

  IsSearch-skip :
      (id : String) (queue visited : List String) (after : Map OpStatus)
      → is_in id visited ≡ true
      → IsSearch (id ∷ queue) visited after
      → IsSearch queue visited after
  IsSearch-skip id queue visited after v h = record {
    settled = h.settled;
    closed = λ i next s t. ground (arith, h.closed i next s t, v, eq_iff id next);
    awaiting = λ i q. h.awaiting i (ground (arith, q));
    changed = h.changed;
    begun = h.begun;
  }

  IsSearch-visit :
      (id : String) (queue visited : List String) (a : Aborting)
      → IsSearch (id ∷ queue) visited a.status
      → IsSearch (queue ++ listed id dependents) (id ∷ visited) (abort_one id a).status
  IsSearch-visit id queue visited a h = record {
    settled = λ i s. ground (arith, s, h.settled i, abort_one_lem id i a, eq_iff id i);
    closed = λ i next s t. elim (Bool-cases (id == i)) [
      | inl e ↦
          let t' : is_in next (listed id dependents) ≡ true =
            subst (λ k. is_in next (listed k dependents) ≡ true) (sym ((eq_iff id i).0 e)) t in
          ground (arith, t', any-append (λ k. k == next) queue (listed id dependents))
      | inr e ↦ ground (
        arith,
        e,
        s,
        t,
        h.closed i next,
        any-append (λ k. k == next) queue (listed id dependents),
      )
    ];
    awaiting = λ i q. elim (Bool-cases (is_in i queue)) [
      | inl e ↦ h.awaiting i (ground (arith, e))
      | inr e ↦
          further id i (h.awaiting id (ground (arith, eq_iff id id)))
            (ground (arith, q, e, any-append (λ k. k == i) queue (listed id dependents)))
    ];
    changed = λ i. elim (Bool-cases (id == i)) [
      | inl e ↦
          let w : Awaits dependents failed_id i = h.awaiting i (ground (arith, e)) in
          ground (arith, e, w, h.changed i, abort_one_lem id i a, pending_eq (status_of i a.status))
      | inr e ↦ ground (arith, e, h.changed i, abort_one_lem id i a)
    ];
    begun = ground (arith, h.begun);
  }

  -- With fuel for the queue and for every edge that may still join it, the queue is worked off.
  abort_loop-IsSearch :
      (fuel : ℕ) (queue visited : List String) (a : Aborting)
      → length queue + edges_beyond visited dependents ≤ fuel
      → IsSearch queue visited a.status
      → (end : List String) × IsSearch [] end (abort_loop dependents fuel queue visited a).status
  unfolding abort_loop
  abort_loop-IsSearch ℕ.zero [] visited a le h = (visited, h)
  abort_loop-IsSearch ℕ.zero (id ∷ queue) visited a le h = ground (arith, le)
  abort_loop-IsSearch (suc fuel) [] visited a le h = (visited, h)
  abort_loop-IsSearch (suc fuel) (id ∷ queue) visited a le h =
      elim (Bool-cases (is_in id visited)) [
        | inl v ↦
            rw (v, abort_loop)
              (abort_loop-IsSearch fuel queue visited a (omega (arith, le))
                (IsSearch-skip id queue visited a.status v h))
        | inr v ↦
            rw (v, abort_loop)
              (abort_loop-IsSearch fuel (queue ++ listed id dependents) (id ∷ visited)
                (abort_one id a)
                (omega (
                  arith,
                  le,
                  edges_beyond-le id visited dependents v,
                  length-append queue (listed id dependents),
                ))
                (IsSearch-visit id queue visited a h))
      ]

  Awaits-is_in :
      (end : List String) (after : Map OpStatus)
      → IsSearch [] end after
      → (id : String) → Awaits dependents failed_id id
      → is_in id end ≡ true
  Awaits-is_in end after h id (direct _ e) = ground (arith, h.closed failed_id id h.begun e)
  Awaits-is_in end after h id (further b _ w e) =
      ground (arith, h.closed b id (Awaits-is_in end after h b w) e)

IsSearch-start :
    (dependents : Map (List String)) (failed_id : String) (status : Map OpStatus)
    → IsSearch dependents failed_id status (listed failed_id dependents) (failed_id ∷ []) status
IsSearch-start dependents failed_id status = record {
  settled = λ i s. ground (arith, s, eq_iff failed_id i);
  closed = λ i next s t.
      let e : failed_id ≡ i = (eq_iff failed_id i).0 (ground (arith, s)) in
      inr (subst (λ k. is_in next (listed k dependents) ≡ true) (sym e) t);
  awaiting = λ i q. direct i q;
  changed = λ i. inl refl;
  begun = ground (arith, eq_iff failed_id failed_id);
}

abort_transitive-IsSearch :
    (dependents : Map (List String)) (failed_id : String) (status : Map OpStatus)
    → (end : List String) × IsSearch dependents failed_id status [] end
        (abort_transitive failed_id dependents status).status
unfolding abort_transitive
abort_transitive-IsSearch dependents failed_id status =
    abort_loop-IsSearch dependents failed_id status _ (listed failed_id dependents) (failed_id ∷ [])
      (record { status = status; aborted = [] }) (omega arith)
      (IsSearch-start dependents failed_id status)

-- The search ends within its fuel, whatever the graph of dependents, cycles included: an operation
-- that waits for the failed one, directly or through others, and is not the failed one itself, is not
-- pending afterwards.
pub abort_transitive-settled :
    (dependents : Map (List String)) (failed_id : String) (status : Map OpStatus) (id : String)
    → Awaits dependents failed_id id
    → failed_id ≢ id
    → is_pending (status_of id (abort_transitive failed_id dependents status).status) ≡ false
abort_transitive-settled dependents failed_id status id w other =
    let (end, h) = abort_transitive-IsSearch dependents failed_id status in
    elim (h.settled id (Awaits-is_in dependents failed_id status end _ h id w)) [
      | inl same ↦ absurd (other same)
      | inr done ↦ done
    ]

-- The search changes a status only from pending to aborted, and only that of an operation that waits
-- for the failed one, directly or through others.
pub abort_transitive-changed :
    (dependents : Map (List String)) (failed_id : String) (status : Map OpStatus) (id : String)
    → (status_of id (abort_transitive failed_id dependents status).status ≡ status_of id status)
      ⊎ IsAborted dependents failed_id status
          (abort_transitive failed_id dependents status).status
          id
abort_transitive-changed dependents failed_id status id =
    (abort_transitive-IsSearch dependents failed_id status).1.changed id
