-- ===== src/Router/Loops.antt =====
-- `Router::route` of libsponge/router.cc: its loops end, and leave the queues empty.
use csed.Base.{
  ℕ, zero, suc, ◌+◌, ◌≤◌, ◌<◌, ◌≡◌, refl, sym, subst, ap, ◌∙◌, Bool, true, false, List, [], ◌∷◌,
  arith, ◌==◌, Bool-cases, inl, inr, length, get_elem?,
}
use csed.Datagram.{Ipv4Datagram}
use csed.NetworkInterface.{Outcome, returned, thrown}
use csed.Router.{
  Router, route_one_datagram, queue, set_queue, pop, put_front, finish, round, after, drain,
  route_from, route,
}
use csed.Router.Queues.{
  Quiet, route_one-Quiet, put_queue-count, put_queue-routing_table, put_queue_ne, put_queue_self,
}

went : Outcome → Bool
went returned = true
went thrown = false

not_both : {A : Type 0} → thrown ≡ returned → A
not_both h = absurd (ground (arith, ap went h))

-- What a round on the queue `i` leaves.
pub record Popped (i : ℕ) (r : Router) (p : Router × Outcome) : Type 0 where
  pub count : length p.0.interfaces ≡ length r.interfaces
  pub others : (j : ℕ) → (j == i) ≡ false → queue p.0 j ≡ queue r j
  pub table : p.0.routing_table ≡ r.routing_table
  pub front : p.1 ≡ returned → queue p.0 i ≡ pop (queue r i)

finish-Popped :
    (i : ℕ) (r r' : Router) (d d' : Ipv4Datagram) (ds : List Ipv4Datagram) (o : Outcome)
    → Quiet r r'
    → queue r i ≡ d ∷ ds
    → Popped i r (finish i (r', d', o))
unfolding finish set_queue
finish-Popped i r r' d d' ds returned q h = record {
  count = put_queue-count r' i (get_elem? r'.interfaces i) (pop (queue r' i)) ∙ q.count;
  table = put_queue-routing_table r' i (get_elem? r'.interfaces i) (pop (queue r' i)) ∙ q.table;
  others = λ j n. put_queue_ne r' i j (get_elem? r'.interfaces i) (pop (queue r' i)) n ∙ q.queues j;
  front = λ e.
      put_queue_self r' i (get_elem? r'.interfaces i) d ds (pop (queue r' i)) refl
        (unfold queue in q.queues i ∙ h)
      ∙ ap pop (q.queues i);
}
finish-Popped i r r' d d' ds thrown q h = record {
  count = put_queue-count r' i (get_elem? r'.interfaces i) (put_front d' (queue r' i)) ∙ q.count;
  table =
      put_queue-routing_table r' i (get_elem? r'.interfaces i) (put_front d' (queue r' i))
      ∙ q.table;
  others = λ j n.
      put_queue_ne r' i j (get_elem? r'.interfaces i) (put_front d' (queue r' i)) n ∙ q.queues j;
  front = λ e. not_both e;
}

pub round-Popped :
    (i : ℕ) (r : Router) (q : List Ipv4Datagram) → queue r i ≡ q → Popped i r (round i r q)
unfolding round pop
round-Popped i r [] h = record {
  count = refl;
  table = refl;
  others = λ j n. refl;
  front = λ e. h ∙ sym (ap pop h);
}
round-Popped i r (d ∷ ds) h =
    finish-Popped i r (route_one_datagram r d).0 d (route_one_datagram r d).1 ds
      (route_one_datagram r d).2 (route_one-Quiet r d) h

length-pop : (q : List Ipv4Datagram) (n : ℕ) → length q ≤ suc n → length (pop q) ≤ n
unfolding pop
length-pop [] n h = omega arith
length-pop (d ∷ ds) n h = omega (arith, h)

no_length : (q : List Ipv4Datagram) → length q ≤ 0 → q ≡ []
no_length [] h = refl
no_length (d ∷ ds) h = absurd (omega (arith, h))

-- What the inner loop leaves, with fuel enough.
record Drained (i : ℕ) (r : Router) (p : Router × Outcome) : Type 0 where
  count : length p.0.interfaces ≡ length r.interfaces
  others : (j : ℕ) → (j == i) ≡ false → queue p.0 j ≡ queue r j
  empty : p.1 ≡ returned → queue p.0 i ≡ []

after-Drained :
    (i fuel : ℕ) (r : Router) (p : Router × Outcome)
    → Popped i r p
    → (p.1 ≡ returned → Drained i p.0 (drain fuel i p.0))
    → Drained i r (after p (drain fuel i))
unfolding after
after-Drained i fuel r (r', thrown) p d = record {
  count = p.count;
  others = p.others;
  empty = λ e. not_both e;
}
after-Drained i fuel r (r', returned) p d =
    let rest = d refl in
    record {
      count = rest.count ∙ p.count;
      others = λ j n. rest.others j n ∙ p.others j n;
      empty = rest.empty;
    }

drain-Drained : (fuel i : ℕ) (r : Router) → length (queue r i) ≤ fuel → Drained i r (drain fuel i r)
unfolding drain
drain-Drained zero i r h = record {
  count = refl;
  others = λ j n. refl;
  empty = λ e. no_length (queue r i) h;
}
drain-Drained (suc fuel) i r h =
    let p = round-Popped i r (queue r i) refl in
    after-Drained i fuel r (round i r (queue r i)) p (λ e.
      drain-Drained fuel i (round i r (queue r i)).0
        (subst (λ q. length q ≤ fuel) (sym (p.front e)) (length-pop (queue r i) fuel h)))

drain_empty : (k i : ℕ) (r : Router) → queue r i ≡ [] → drain k i r ≡ (r, returned)
unfolding drain round after
drain_empty zero i r h = refl
drain_empty (suc k) i r h = ap (λ q. after (round i r q) (drain k i)) h ∙ drain_empty k i r h

after-same :
    (p : Router × Outcome) (f g : Router → Router × Outcome)
    → (p.1 ≡ returned → f p.0 ≡ g p.0)
    → after p f ≡ after p g
unfolding after
after-same (r, returned) f g h = h refl
after-same (r, thrown) f g h = refl

drain_more :
    (fuel k i : ℕ) (r : Router) → length (queue r i) ≤ fuel → drain (fuel + k) i r ≡ drain fuel i r
unfolding drain
drain_more zero k i r h =
    let run : drain (0 + k) i r ≡ drain k i r = ap (λ n. drain n i r) {y = k} (omega arith) in
    run ∙ drain_empty k i r (no_length (queue r i) h)
drain_more (suc fuel) k i r h =
    let p = round-Popped i r (queue r i) refl in
    let run : drain (suc fuel + k) i r ≡ drain (suc (fuel + k)) i r =
      ap (λ n. drain n i r) {y = suc (fuel + k)} (omega arith) in
    run
    ∙ after-same (round i r (queue r i)) (drain (fuel + k) i) (drain fuel i) (λ e.
      drain_more fuel k i (round i r (queue r i)).0
        (subst (λ q. length q ≤ fuel) (sym (p.front e)) (length-pop (queue r i) fuel h)))

-- The inner loop ends: as many rounds as there are datagrams in the queue are enough, more change
-- nothing, and if none of them throws the queue is empty, while the other queues are as they were.
pub drain_lem :
    (k i : ℕ) (r : Router)
    → (drain (length (queue r i) + k) i r ≡ drain (length (queue r i)) i r)
      × ((drain (length (queue r i)) i r).1 ≡ returned
          → queue (drain (length (queue r i)) i r).0 i ≡ [])
      × ((j : ℕ) → (j == i) ≡ false → queue (drain (length (queue r i)) i r).0 j ≡ queue r j)
drain_lem k i r =
    let d = drain-Drained (length (queue r i)) i r (omega arith) in
    (drain_more (length (queue r i)) k i r (omega arith), d.empty, d.others)

-- The first `m` queues are empty, if nothing was thrown.
record Emptied (m : ℕ) (r : Router) (p : Router × Outcome) : Type 0 where
  count : length p.0.interfaces ≡ length r.interfaces
  empty : p.1 ≡ returned → (j : ℕ) → j < m → queue p.0 j ≡ []

after-Emptied :
    (m : ℕ) (r : Router) (p : Router × Outcome) (f : Router → Router × Outcome)
    → length p.0.interfaces ≡ length r.interfaces
    → (p.1 ≡ returned → Emptied m p.0 (f p.0))
    → Emptied m r (after p f)
unfolding after
after-Emptied m r (r', thrown) f c d = record { count = c; empty = λ e. not_both e }
after-Emptied m r (r', returned) f c d =
    let rest = d refl in record { count = rest.count ∙ c; empty = rest.empty }

-- The queues before `i` are empty.
route_from-Emptied :
    (n i : ℕ) (r : Router)
    → ((j : ℕ) → j < i → queue r j ≡ [])
    → Emptied (i + n) r (route_from n i r)
unfolding route_from
route_from-Emptied zero i r h = record { count = refl; empty = λ e j l. h j (omega (arith, l)) }
route_from-Emptied (suc n) i r h =
    let d = drain-Drained (length (queue r i)) i r (omega arith) in
    let p = drain (length (queue r i)) i r in
    after-Emptied (i + suc n) r p (route_from n (suc i)) d.count (λ e.
      let rest : Emptied (suc i + n) p.0 (route_from n (suc i) p.0) =
        route_from-Emptied n (suc i) p.0 (done d e) in
      record { count = rest.count; empty = λ o j l. rest.empty o j (omega (arith, l)) })
  where
    done :
        Drained i r (drain (length (queue r i)) i r)
        → (drain (length (queue r i)) i r).1 ≡ returned
        → (j : ℕ) → j < suc i
        → queue (drain (length (queue r i)) i r).0 j ≡ []
    done d e j l = elim (Bool-cases (j == i)) [
      | inl here ↦
          ap (queue (drain (length (queue r i)) i r).0) {x = j} (ground (arith, here)) ∙ d.empty e
      | inr there ↦ d.others j there ∙ h j (ground (arith, there, l))
    ]

-- `route` on a router, unless it throws: all queues are empty after it, and the interfaces are as many as before.
pub route_lem :
    (r : Router)
    → (route r).1 ≡ returned
    → (length (route r).0.interfaces ≡ length r.interfaces)
      × ((j : ℕ) → j < length r.interfaces → queue (route r).0 j ≡ [])
unfolding route
route_lem r e =
    let done = route_from-Emptied (length r.interfaces) 0 r (λ j l. absurd (omega (arith, l))) in
    (done.count, λ j l. done.empty e j (omega (arith, l)))
