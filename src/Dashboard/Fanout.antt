-- ===== src/Dashboard/Fanout.antt =====
-- `DashboardState.publish` of src/anglerfish/dashboard/state.py: each subscriber has a bounded queue.
mod Newest
mod Tests
use anglerfish_ai.Base.{
  ℕ, Option, none, some, List, [], ◌∷◌, ◌++◌, ltb, if◌then◌else◌, length, drop,
}

pub record Queue (A : Type 0) : Type 0 where
  pub maxsize : ℕ
  pub items : List A

module _ {A : Type 0} where
  -- `none` is `asyncio.QueueFull`.
  unfoldable pub put_nowait : A → Queue A → Option (Queue A)
  put_nowait event q =
      if ltb (length q.items) q.maxsize
      then some (record q { items = q.items ++ (event ∷ []) })
      else none

  -- The second attempt, whose failure is suppressed.
  abbrev pub or_unchanged : Queue A → Option (Queue A) → Queue A
  or_unchanged q none = q
  or_unchanged q (some filled) = filled

  abbrev pub put_again : A → Queue A → Queue A
  put_again event q = or_unchanged q (put_nowait event q)

  -- A full queue loses its oldest event.
  abbrev pub or_drop_oldest : A → Queue A → Option (Queue A) → Queue A
  or_drop_oldest event q none = put_again event (record q { items = drop 1 q.items })
  or_drop_oldest event q (some filled) = filled

  unfoldable pub offer : A → Queue A → Queue A
  unfolding put_nowait
  offer event q = or_drop_oldest event q (put_nowait event q)

  unfoldable pub publish_to : A → List (Queue A) → List (Queue A)
  publish_to event [] = []
  publish_to event (q ∷ queues) = offer event q ∷ publish_to event queues

  -- Events published one after another.
  unfoldable pub publish_all : List A → List (Queue A) → List (Queue A)
  publish_all [] queues = queues
  publish_all (event ∷ events) queues = publish_all events (publish_to event queues)
