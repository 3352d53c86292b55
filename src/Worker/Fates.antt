-- ===== src/Worker/Fates.antt =====
-- No message is lost (cmd/worker/subscriber.go).
use eve_industry_planner_sta.Prelude.{
  ℕ, ◌+◌, ◌*◌, ◌≤◌, ◌≡◌, refl, ap, ◌∙◌, arith, Bool, true, false, List, [], ◌∷◌, ◌++◌, map,
  if◌then◌else◌, ◌==◌, ◌&&◌, Bool-cases, inl, inr,
}
use mathlib.Core.List.{append-nil}
use native.Mathlib.Nat.{mul-add, mul-one, mul-zero}
use eve_industry_planner_sta.Nats.{Call, nak, in_progress}
use eve_industry_planner_sta.Tasks.Settlement.{is_settling, settlings}
use eve_industry_planner_sta.Worker.{
  Delivery, num_delivered, Ran, Worker, of_message, take_message, calls_of, complete, stop, idle,
}
use eve_industry_planner_sta.Worker.Loop.{Step, fetch, take, run, shut, Reach, here, later}

-- How often a message stands in a list.
abbrev pub count : ℕ → List Delivery → ℕ
count id [] = 0
count id (d ∷ rest) = (if d.id == id then 1 else 0) + count id rest

count-append : (id : ℕ) (xs ys : List Delivery) → count id (xs ++ ys) ≡ count id xs + count id ys
count-append id [] ys = omega arith
count-append id (d ∷ xs) ys = omega (arith, count-append id xs ys)

-- How many of the calls settle a message.
abbrev pub settled : ℕ → List (ℕ × Call) → ℕ
settled id [] = 0
settled id ((k, call) ∷ rest) = (if (k == id) && is_settling call then 1 else 0) + settled id rest

settled-append :
    (id : ℕ) (xs ys : List (ℕ × Call)) → settled id (xs ++ ys) ≡ settled id xs + settled id ys
settled-append id [] ys = omega arith
settled-append id ((k, call) ∷ xs) ys = omega (arith, settled-append id xs ys)

settled-of_message :
    (id k : ℕ) (calls : List Call)
    → settled id (map (of_message k) calls) ≡ (if k == id then settlings calls else 0)
settled-of_message id k [] = ground arith
settled-of_message id k (call ∷ rest) = ground (arith, settled-of_message id k rest)

scaled :
    (most n : ℕ) (b : Bool) → most * (n + (if b then 1 else 0)) ≡ most * n + (if b then most else 0)
scaled most n true = mul-add most n 1 ∙ ap (λ k. most * n + k) (mul-one most)
scaled most n false = mul-add most n 0 ∙ ap (λ k. most * n + k) (mul-zero most)

module _ {S : Type 0} (Task : ℕ → S → Ran S → Type 0) (most : ℕ) (one : 1 ≤ most)
    (settles : (n : ℕ) (s : S) (r : Ran S)
      → Task n s r
      → (1 ≤ settlings (calls_of r)) × (settlings (calls_of r) ≤ most)) where
  -- Of each message: those that were fetched and are neither in the batch nor in the pool are done,
  -- and were settled once each at least, and `most` times at most.
  pub record Fate (id : ℕ) (fetched : List Delivery) (w : Worker S) : Type 0 where
    pub done : ℕ
    pub accounted : count id fetched ≡ count id w.batch + count id w.waiting + done
    pub settled_once : done ≤ settled id w.said
    pub settled_most : settled id w.said ≤ most * done

  take_message-Fate :
      (id : ℕ) (fetched : List Delivery) (d : Delivery) (rest : List Delivery) (w : Worker S)
      → w.batch ≡ d ∷ rest
      → Fate id fetched w
      → Fate id fetched (take_message d rest w)
  unfolding take_message
  take_message-Fate id fetched d rest w e f = elim (Bool-cases d.accepted) [
    | inl taken ↦
        rw (taken, take_message)
          (record {
            done = f.done;
            accounted =
                ground (arith, f.accounted, ap (count id) e, count-append id w.waiting (d ∷ []));
            settled_once =
                ground (arith, f.settled_once, settled-append id w.said ((d.id, in_progress) ∷ []));
            settled_most =
                ground (arith, f.settled_most, settled-append id w.said ((d.id, in_progress) ∷ []));
          })
    | inr refused ↦
        rw (refused, take_message)
          (record {
            done = f.done + (if d.id == id then 1 else 0);
            accounted = ground (arith, f.accounted, ap (count id) e);
            settled_once = ground (
              arith,
              f.settled_once,
              settled-append id w.said ((d.id, in_progress) ∷ (d.id, nak) ∷ []),
            );
            settled_most = ground (
              arith,
              one,
              f.settled_most,
              scaled most f.done (d.id == id),
              settled-append id w.said ((d.id, in_progress) ∷ (d.id, nak) ∷ []),
            );
          })
  ]

  complete-Fate :
      (id : ℕ) (fetched before : List Delivery) (d : Delivery) (after : List Delivery) (r : Ran S)
      (w : Worker S)
      → w.waiting ≡ before ++ d ∷ after
      → Task (num_delivered d.metadata) w.shared r
      → Fate id fetched w
      → Fate id fetched (complete d r (before ++ after) w)
  unfolding complete
  complete-Fate id fetched before d after r w e t f = record {
    done = f.done + (if d.id == id then 1 else 0);
    accounted = ground (
      arith,
      f.accounted,
      ap (count id) e,
      count-append id before (d ∷ after),
      count-append id before after,
    );
    settled_once = ground (
      arith,
      f.settled_once,
      settled-append id w.said (map (of_message d.id) (calls_of r)),
      settled-of_message id d.id (calls_of r),
      settles (num_delivered d.metadata) w.shared r t,
    );
    settled_most = ground (
      arith,
      f.settled_most,
      scaled most f.done (d.id == id),
      settled-append id w.said (map (of_message d.id) (calls_of r)),
      settled-of_message id d.id (calls_of r),
      settles (num_delivered d.metadata) w.shared r t,
    );
  }

  Step-Fate :
      (id : ℕ) (fetched more : List Delivery) {w w' : Worker S}
      → Step Task w more w'
      → Fate id fetched w
      → Fate id (fetched ++ more) w'
  unfolding stop
  Step-Fate id fetched more {w} (fetch batch open_still empty few) f = record {
    done = f.done;
    accounted = ground (arith, f.accounted, ap (count id) empty, count-append id fetched batch);
    settled_once = f.settled_once;
    settled_most = f.settled_most;
  }
  Step-Fate id fetched more {w} (take d rest e) f =
      rw (append-nil fetched) (take_message-Fate id fetched d rest w e f)
  Step-Fate id fetched more {w} (run before d after r e t) f =
      rw (append-nil fetched) (complete-Fate id fetched before d after r w e t f)
  Step-Fate id fetched more {w} shut f = rw (append-nil fetched) (record {
    done = f.done;
    accounted = f.accounted;
    settled_once = f.settled_once;
    settled_most = f.settled_most;
  })

  -- In every run of a worker that starts with nothing fetched, each message is accounted for: as
  -- often as it was fetched, it is still in the batch, or its task is still in the pool, or it was
  -- settled, once at least and `most` times at most. So it is if every task that the pool runs settles
  -- its message that often, what is said after a panic included.
  pub Reach-Fate :
      (id : ℕ) (shared : S) {fetched : List Delivery} {w : Worker S}
      → Reach Task (idle shared) fetched w
      → Fate id fetched w
  Reach-Fate id shared here = record {
    done = 0;
    accounted = refl;
    settled_once = omega arith;
    settled_most = omega arith;
  }
  Reach-Fate id shared (later before step e) =
      rw e (Step-Fate id _ _ step (Reach-Fate id shared before))
