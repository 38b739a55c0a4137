-- ===== src/Client/Router.antt =====
-- client/transport.py: `ResultRouter`. Its queues are asyncio queues, first in first out and without
-- a bound; its task calls `receive_result` and routes what that returns, until it is cancelled or
-- the call raises. `R` is the type of the results and `route` the frame id and view id of one.
pub mod Fifo
use nnrp_py.Common.{
  ℕ, Bool, true, false, ◌||◌, ◌&&◌, Option, none, some, List, [], ◌∷◌, ◌++◌, if◌then◌else◌, Dict,
  pair_key, get, set,
}

abbrev pub RouteKey : Type 0
RouteKey = ℕ × ℕ

-- What lies in a queue: a result, or `_RESULT_ROUTER_CLOSED`.
pub data Item (R : Type 0) : Type 0 where
  result : R → Item R
  router_closed : Item R

pub record ResultRouter (R : Type 0) : Type 0 where
  pub queues : Dict RouteKey (List (Item R))
  pub error : Bool
  pub closed : Bool

-- How a `receive` ends, or that it waits in `queue.get`.
pub data Outcome (R : Type 0) : Type 0 where
  got : R → Outcome R
  raised_closed raised_failure waits : Outcome R

module _ {R : Type 0} where
  abbrev pub queue_or_empty : Option (List (Item R)) → List (Item R)
  queue_or_empty none = []
  queue_or_empty (some queue) = queue

  -- `_queue_for`: the queue of a key, which is made when it is not there yet.
  abbrev pub queue_for : RouteKey → ResultRouter R → List (Item R)
  queue_for key router = queue_or_empty (get key router.queues)

  abbrev pub with_queue : RouteKey → List (Item R) → ResultRouter R → ResultRouter R
  with_queue key queue router = record {
    queues = set key queue router.queues;
    error = router.error;
    closed = router.closed;
  }

  -- One round of the task with a result: it puts it behind the others of its key.
  unfoldable pub deliver : (R → RouteKey) → R → ResultRouter R → ResultRouter R
  deliver route r router = with_queue (route r) (queue_for (route r) router ++ result r ∷ []) router

  abbrev pub close_all : Dict RouteKey (List (Item R)) → Dict RouteKey (List (Item R))
  close_all [] = []
  close_all ((key, queue) ∷ queues) = (key, queue ++ router_closed ∷ []) ∷ close_all queues

  -- The end of the task, with or without a failure: `finally` closes every queue.
  unfoldable pub stop : Bool → ResultRouter R → ResultRouter R
  stop failed router = record {
    queues = close_all router.queues;
    error = router.error || failed;
    closed = true;
  }

  abbrev pub end_of : Bool → Outcome R
  end_of true = raised_failure
  end_of false = raised_closed

  abbrev pub outcome_of : Bool → Item R → Outcome R
  outcome_of error (result r) = got r
  outcome_of error router_closed = end_of error

  -- What `await queue.get()` does when it goes on: it takes the first item.
  unfoldable pub take_item : RouteKey → List (Item R) → ResultRouter R → Outcome R × ResultRouter R
  take_item key [] router = (waits, with_queue key [] router)
  take_item key (item ∷ queue) router = (outcome_of router.error item, with_queue key queue router)

  -- `receive` up to its end, or up to where it waits.
  unfoldable pub receive_from :
      RouteKey → List (Item R) → ResultRouter R → Outcome R × ResultRouter R
  unfolding take_item
  receive_from key [] router =
      if router.error || router.closed
      then (end_of router.error, with_queue key [] router)
      else take_item key [] router
  receive_from key (item ∷ queue) router = take_item key (item ∷ queue) router

  unfoldable pub receive : RouteKey → ResultRouter R → Outcome R × ResultRouter R
  unfolding receive_from
  receive key router = receive_from key (queue_for key router) router

  -- A `receive` that waits goes on when there is an item.
  unfoldable pub resume : RouteKey → ResultRouter R → Outcome R × ResultRouter R
  unfolding take_item
  resume key router = take_item key (queue_for key router) router

  abbrev pub received_by :
      RouteKey → Outcome R × ResultRouter R → List (RouteKey × R) × ResultRouter R
  received_by key (got r, router) = ((key, r) ∷ [], router)
  received_by key (_, router) = ([], router)

-- What may happen to a router: its task goes round or ends, and callers receive.
pub data Action (R : Type 0) : Type 0 where
  task_round : R → Action R
  task_end : Bool → Action R
  starts_receive resumes_receive : RouteKey → Action R

module _ {R : Type 0} (route : R → RouteKey) where
  -- One action: what a caller received, and the router. The task does nothing once it has ended.
  unfoldable pub act : Action R → ResultRouter R → List (RouteKey × R) × ResultRouter R
  unfolding deliver stop receive resume
  act (task_round r) router = ([], if router.closed then router else deliver route r router)
  act (task_end failed) router = ([], if router.closed then router else stop failed router)
  act (starts_receive key) router = received_by key (receive key router)
  act (resumes_receive key) router = received_by key (resume key router)

  -- Any interleaving of the task and the callers: all that was received, in its order.
  unfoldable pub run : List (Action R) → ResultRouter R → List (RouteKey × R) × ResultRouter R
  unfolding act
  run [] router = ([], router)
  run (action ∷ actions) router =
      let (received, next) = act action router in
      let (others, last) = run actions next in (received ++ others, last)
