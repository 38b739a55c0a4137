-- ===== src/Client/Router/Fifo.antt =====
-- client/transport.py: what the callers of a router receive of a key, in every interleaving.
use nnrp_py.Common.{
  ◌≡◌, refl, sym, ap, ◌∙◌, Bool, true, false, ◌||◌, List, [], ◌∷◌, ◌++◌, append-nil, append_assoc,
  if◌then◌else◌, Dict, pair_key, same_pair, same_pair_iff, get, get-set_same, get-set_other,
  Bool-cases, inl, inr,
}
use nnrp_py.Client.Router.{
  RouteKey, Item, result, router_closed, ResultRouter, queue_or_empty, queue_for, with_queue,
  deliver, close_all, stop, end_of, outcome_of, take_item, receive_from, receive, resume, Action,
  task_round, task_end, starts_receive, resumes_receive, received_by, act, run,
}

module _ {R : Type 0} where
  -- The results that lie in a queue.
  abbrev pub results_in : List (Item R) → List R
  results_in [] = []
  results_in (result r ∷ queue) = r ∷ results_in queue
  results_in (router_closed ∷ queue) = results_in queue

  results_in-append : (a b : List (Item R)) → results_in (a ++ b) ≡ results_in a ++ results_in b
  results_in-append [] b = refl
  results_in-append (result r ∷ a) b = ap (λ l. r ∷ l) (results_in-append a b)
  results_in-append (router_closed ∷ a) b = results_in-append a b

  abbrev pub queued : RouteKey → ResultRouter R → List R
  queued key router = results_in (queue_for key router)

  abbrev pub of_key : RouteKey → List (RouteKey × R) → List R
  of_key key [] = []
  of_key key ((k, r) ∷ received) =
      let rest = of_key key received in if same_pair key k then r ∷ rest else rest

  of_key-append :
      (key : RouteKey) (a b : List (RouteKey × R))
      → of_key key (a ++ b) ≡ of_key key a ++ of_key key b
  of_key-append key [] b = refl
  of_key-append key ((k, r) ∷ a) b = elim (Bool-cases (same_pair key k)) [
    | inl e ↦ rw (e, of_key-append key a b)
    | inr e ↦ rw (e, of_key-append key a b)
  ]

  queue_for-with_same :
      (key : RouteKey) (queue : List (Item R)) (router : ResultRouter R)
      → queue_for key (with_queue key queue router) ≡ queue
  queue_for-with_same key queue router = ap queue_or_empty (get-set_same key queue router.queues)

  queue_for-with_other :
      (key k : RouteKey) (queue : List (Item R)) (router : ResultRouter R)
      → same_pair key k ≡ false
      → queue_for key (with_queue k queue router) ≡ queue_for key router
  queue_for-with_other key k queue router h =
      ap queue_or_empty (get-set_other k key queue router.queues h)

  queued-close_all :
      (key : RouteKey) (queues : Dict RouteKey (List (Item R)))
      → results_in (queue_or_empty (get key (close_all queues)))
        ≡ results_in (queue_or_empty (get key queues))
  unfolding get
  queued-close_all key [] = refl
  queued-close_all key ((k, queue) ∷ queues) = elim (Bool-cases (same_pair key k)) [
    | inl e ↦ rw e (results_in-append queue (router_closed ∷ []) ∙ append-nil (results_in queue))
    | inr e ↦ rw e (queued-close_all key queues)
  ]

  -- The results of a key when one queue is replaced.
  queued-with :
      (key k : RouteKey) (queue : List (Item R)) (router : ResultRouter R)
      → queued key (with_queue k queue router)
        ≡ (if same_pair key k then results_in queue else queued key router)
  queued-with key k queue router = elim (Bool-cases (same_pair key k)) [
    | inl e ↦
        let same : key ≡ k = (same_pair_iff key k).0 e in
        rw e (
          ap (λ j. queued j (with_queue k queue router)) same
          ∙ ap results_in (queue_for-with_same k queue router))
    | inr e ↦ rw e (ap results_in (queue_for-with_other key k queue router e))
  ]

  queued_here :
      (key k : RouteKey) (router : ResultRouter R)
      → same_pair key k ≡ true
      → queued key router ≡ queued k router
  queued_here key k router e = ap (λ j. queued j router) ((same_pair_iff key k).0 e)

  -- To take away what is not a result leaves the results.
  queued-closed :
      (key k : RouteKey) (queue : List (Item R)) (router : ResultRouter R)
      → queue_for k router ≡ router_closed ∷ queue
      → queued key (with_queue k queue router) ≡ queued key router
  queued-closed key k queue router h = elim (Bool-cases (same_pair key k)) [
    | inl e ↦
        queued-with key k queue router ∙ rw e (sym (queued_here key k router e ∙ ap results_in h))
    | inr e ↦ queued-with key k queue router ∙ rw e refl
  ]

  received-end :
      (error : Bool) (key k : RouteKey) (router : ResultRouter R)
      → of_key key (received_by k (end_of error, router)).0
          ++ queued key (received_by k (end_of error, router)).1
        ≡ queued key router
  received-end true key k router = refl
  received-end false key k router = refl

  -- What one item gives, and leaves.
  take_item-queued :
      (key k : RouteKey) (queue : List (Item R)) (router : ResultRouter R)
      → queue_for k router ≡ queue
      → of_key key (received_by k (take_item k queue router)).0
          ++ queued key (received_by k (take_item k queue router)).1
        ≡ queued key router
  unfolding take_item
  take_item-queued key k [] router h = elim (Bool-cases (same_pair key k)) [
    | inl e ↦
        queued-with key k [] router ∙ rw e (sym (queued_here key k router e ∙ ap results_in h))
    | inr e ↦ queued-with key k [] router ∙ rw e refl
  ]
  take_item-queued key k (result r ∷ queue) router h = elim (Bool-cases (same_pair key k)) [
    | inl e ↦
        let left = queued-with key k queue router in
        rw e (ap (λ l. r ∷ l) (rw e at left) ∙ sym (queued_here key k router e ∙ ap results_in h))
    | inr e ↦ let left = queued-with key k queue router in rw e (rw e at left)
  ]
  take_item-queued key k (router_closed ∷ queue) router h =
      received-end router.error key k (with_queue k queue router)
      ∙ queued-closed key k queue router h

  empty_taken :
      (key k : RouteKey) (router : ResultRouter R)
      → queue_for k router ≡ []
      → queued key (with_queue k [] router) ≡ queued key router
  unfolding get take_item
  empty_taken key k router h = take_item-queued key k [] router h

  receive-queued :
      (key k : RouteKey) (queue : List (Item R)) (router : ResultRouter R)
      → queue_for k router ≡ queue
      → of_key key (received_by k (receive_from k queue router)).0
          ++ queued key (received_by k (receive_from k queue router)).1
        ≡ queued key router
  unfolding receive_from
  receive-queued key k [] router h = elim (Bool-cases (router.error || router.closed)) [
    | inl over ↦
        rw over
          (received-end router.error key k (with_queue k [] router) ∙ empty_taken key k router h)
    | inr open_still ↦ rw open_still (take_item-queued key k [] router h)
  ]
  receive-queued key k (item ∷ queue) router h = take_item-queued key k (item ∷ queue) router h

  -- A caller does not open or close the router.
  received-closed :
      (error : Bool) (k : RouteKey) (item : Item R) (router : ResultRouter R)
      → (received_by k (outcome_of error item, router)).1.closed ≡ router.closed
  received-closed error k (result r) router = refl
  received-closed true k router_closed router = refl
  received-closed false k router_closed router = refl

  take_item-closed :
      (k : RouteKey) (queue : List (Item R)) (router : ResultRouter R)
      → (received_by k (take_item k queue router)).1.closed ≡ router.closed
  unfolding take_item
  take_item-closed k [] router = refl
  take_item-closed k (item ∷ queue) router =
      received-closed router.error k item (with_queue k queue router)

  end-closed :
      (error : Bool) (k : RouteKey) (router : ResultRouter R)
      → (received_by k (end_of error, router)).1.closed ≡ router.closed
  end-closed true k router = refl
  end-closed false k router = refl

  receive-closed :
      (k : RouteKey) (queue : List (Item R)) (router : ResultRouter R)
      → (received_by k (receive_from k queue router)).1.closed ≡ router.closed
  unfolding receive_from
  receive-closed k [] router = elim (Bool-cases (router.error || router.closed)) [
    | inl over ↦ rw over (end-closed router.error k (with_queue k [] router))
    | inr open_still ↦ rw open_still (take_item-closed k [] router)
  ]
  receive-closed k (item ∷ queue) router = take_item-closed k (item ∷ queue) router

module _ {R : Type 0} (route : R → RouteKey) where
  -- What the task of a router that is open or closed puts in the queue of a key.
  abbrev pub delivered : RouteKey → Bool → List (Action R) → List R
  delivered key closed [] = []
  delivered key closed (task_round r ∷ actions) =
      let rest = delivered key closed actions in
      if closed then rest else if same_pair key (route r) then r ∷ rest else rest
  delivered key closed (task_end failed ∷ actions) = delivered key true actions
  delivered key closed (starts_receive k ∷ actions) = delivered key closed actions
  delivered key closed (resumes_receive k ∷ actions) = delivered key closed actions

  abbrev closed_after : Bool → Action R → Bool
  closed_after closed (task_round r) = closed
  closed_after closed (task_end failed) = true
  closed_after closed (starts_receive k) = closed
  closed_after closed (resumes_receive k) = closed

  delivered-cons :
      (key : RouteKey) (closed : Bool) (action : Action R) (actions : List (Action R))
      → delivered key closed (action ∷ actions)
        ≡ delivered key closed (action ∷ []) ++ delivered key (closed_after closed action) actions
  delivered-cons key true (task_round r) actions = refl
  delivered-cons key false (task_round r) actions = elim (Bool-cases (same_pair key (route r))) [
    | inl e ↦ rw e refl
    | inr e ↦ rw e refl
  ]
  delivered-cons key closed (task_end failed) actions = refl
  delivered-cons key closed (starts_receive k) actions = refl
  delivered-cons key closed (resumes_receive k) actions = refl

  act-closed :
      (action : Action R) (router : ResultRouter R)
      → (act route action router).1.closed ≡ closed_after router.closed action
  unfolding act deliver stop receive resume
  act-closed (task_round r) router = elim (Bool-cases router.closed) [
    | inl over ↦ rw over refl
    | inr open_still ↦ rw open_still refl
  ]
  act-closed (task_end failed) router = elim (Bool-cases router.closed) [
    | inl over ↦ rw over refl
    | inr open_still ↦ rw open_still refl
  ]
  act-closed (starts_receive k) router = receive-closed k (queue_for k router) router
  act-closed (resumes_receive k) router = take_item-closed k (queue_for k router) router

  delivered_queued :
      (key : RouteKey) (r : R) (router : ResultRouter R)
      → queued key (with_queue (route r) (queue_for (route r) router ++ result r ∷ []) router)
        ≡ queued key router ++ (if same_pair key (route r) then r ∷ [] else [])
  delivered_queued key r router =
      let behind = queue_for (route r) router ++ result r ∷ [] in
      elim (Bool-cases (same_pair key (route r))) [
        | inl e ↦
            queued-with key (route r) behind router
            ∙ rw e (
                results_in-append (queue_for (route r) router) (result r ∷ [])
                ∙ ap (λ l. l ++ r ∷ []) (sym (queued_here key (route r) router e)))
        | inr e ↦
            queued-with key (route r) behind router ∙ rw e (sym (append-nil (queued key router)))
      ]

  act-queued :
      (key : RouteKey) (action : Action R) (router : ResultRouter R)
      → of_key key (act route action router).0 ++ queued key (act route action router).1
        ≡ queued key router ++ delivered key router.closed (action ∷ [])
  unfolding act deliver stop receive resume
  act-queued key (task_round r) router = elim (Bool-cases router.closed) [
    | inl over ↦ rw over (sym (append-nil (queued key router)))
    | inr open_still ↦ rw open_still (delivered_queued key r router)
  ]
  act-queued key (task_end failed) router = elim (Bool-cases router.closed) [
    | inl over ↦ rw over (sym (append-nil (queued key router)))
    | inr open_still ↦
        rw open_still (queued-close_all key router.queues ∙ sym (append-nil (queued key router)))
  ]
  act-queued key (starts_receive k) router =
      receive-queued key k (queue_for k router) router refl ∙ sym (append-nil (queued key router))
  act-queued key (resumes_receive k) router =
      take_item-queued key k (queue_for k router) router refl ∙ sym (append-nil (queued key router))

  -- Whatever the task and the callers do, and however they interleave: of every key, what the
  -- callers have received and what is left in the queue are together, in their order, what was in
  -- the queue before and what the task has delivered for this key.
  pub run-fifo :
      (key : RouteKey) (actions : List (Action R)) (router : ResultRouter R)
      → of_key key (run route actions router).0 ++ queued key (run route actions router).1
        ≡ queued key router ++ delivered key router.closed actions
  unfolding run
  run-fifo key [] router = sym (append-nil (queued key router))
  run-fifo key (action ∷ actions) router =
      let received = (act route action router).0 in
      let next = (act route action router).1 in
      let others = (run route actions next).0 in
      let left = queued key (run route actions next).1 in
      let one = delivered key router.closed (action ∷ []) in
      let later = delivered key (closed_after router.closed action) actions in
      let ih : of_key key others ++ left ≡ queued key next ++ later =
        run-fifo key actions next
        ∙ ap (λ c. queued key next ++ delivered key c actions) (act-closed action router) in
      ap (λ l. l ++ left) (of_key-append key received others)
      ∙ append_assoc (of_key key received) (of_key key others) left
      ∙ ap (λ l. of_key key received ++ l) ih
      ∙ sym (append_assoc (of_key key received) (queued key next) later)
      ∙ ap (λ l. l ++ later) (act-queued key action router)
      ∙ append_assoc (queued key router) one later
      ∙ ap (λ l. queued key router ++ l) (sym (delivered-cons key router.closed action actions))
