-- ===== src/Bridge/Registry/Wasting.antt =====
-- The cap on the milliseconds that the wasting strategy adds to a session.
use anglerfish_ai.Base.{
  ℕ, ◌+◌, ◌≡◌, Bool, false, ◌&&◌, List, [], ◌∷◌, none, leb, ◌==◌, if◌then◌else◌, number_key,
  number_iff, arith,
}
use anglerfish_ai.Base.Dict
use anglerfish_ai.Base.Dict.{Dict}
use anglerfish_ai.Bridge.RateLimit.{Uuid}
use anglerfish_ai.Bridge.Registry.{
  Settings, Registry, Event, wasting_budget_exhausted, is_in, member, ms_or_zero,
  accumulate_wasted_ms,
}

-- The commands of one session, by the milliseconds that each wasted.
unfoldable pub accumulate_all : Settings → Registry → Uuid → List ℕ → Registry
accumulate_all c s sid [] = s
accumulate_all c s sid (wasted ∷ later) =
    accumulate_all c (accumulate_wasted_ms c s sid wasted) sid later

abbrev pub wasted_in : Registry → Uuid → ℕ
wasted_in s sid = ms_or_zero (Dict.get sid s.wasted_ms)

abbrev pub sum : List ℕ → ℕ
sum [] = 0
sum (n ∷ ns) = n + sum ns

-- How often the log says that the session's time is spent.
abbrev pub is_spent : Uuid → Event → Bool
is_spent sid (wasting_budget_exhausted other total cap) = sid == other
is_spent sid other = false

abbrev pub count_spent : Uuid → List Event → ℕ
count_spent sid [] = 0
count_spent sid (e ∷ log) = (if is_spent sid e then 1 else 0) + count_spent sid log

-- A session is marked, and its one event is in the log, just if its total has reached a cap that is
-- set.
pub record IsMetered (c : Settings) (s : Registry) (sid : Uuid) : Type 0 where
  pub marked :
      member sid s.wasted_exhausted
      ≡ (leb 1 c.session_wasted_ms_cap && leb c.session_wasted_ms_cap (wasted_in s sid))
  pub logged : count_spent sid s.log ≡ (if member sid s.wasted_exhausted then 1 else 0)

accumulate-total :
    (c : Settings) (s : Registry) (sid : Uuid) (wasted : ℕ)
    → wasted_in (accumulate_wasted_ms c s sid wasted) sid ≡ wasted_in s sid + wasted
unfolding accumulate_wasted_ms
accumulate-total c s sid wasted =
    ground (arith, Dict.get-put sid sid (wasted_in s sid + wasted) s.wasted_ms, number_iff sid sid)

accumulate-IsMetered :
    (c : Settings) (s : Registry) (sid : Uuid) (wasted : ℕ)
    → IsMetered c s sid
    → IsMetered c (accumulate_wasted_ms c s sid wasted) sid
unfolding accumulate_wasted_ms is_in
accumulate-IsMetered c s sid wasted h =
    let total = Dict.get-put sid sid (wasted_in s sid + wasted) s.wasted_ms in
    let mark = Dict.get-put sid sid tt s.wasted_exhausted in
    record {
      marked = ground (arith, h.marked, total, mark, number_iff sid sid);
      logged = ground (arith, h.marked, h.logged, total, mark, number_iff sid sid);
    }

accumulate_all-total :
    (c : Settings) (s : Registry) (sid : Uuid) (times : List ℕ)
    → wasted_in (accumulate_all c s sid times) sid ≡ wasted_in s sid + sum times
unfolding accumulate_all
accumulate_all-total c s sid [] = omega arith
accumulate_all-total c s sid (wasted ∷ later) = omega (
  arith,
  accumulate_all-total c (accumulate_wasted_ms c s sid wasted) sid later,
  accumulate-total c s sid wasted,
)

accumulate_all-IsMetered :
    (c : Settings) (s : Registry) (sid : Uuid) (times : List ℕ)
    → IsMetered c s sid
    → IsMetered c (accumulate_all c s sid times) sid
unfolding accumulate_all
accumulate_all-IsMetered c s sid [] h = h
accumulate_all-IsMetered c s sid (wasted ∷ later) h =
    accumulate_all-IsMetered c (accumulate_wasted_ms c s sid wasted) sid later
      (accumulate-IsMetered c s sid wasted h)

-- From a registry that knows nothing of the session, after commands that wasted the given times: the
-- session is marked as spent just if a cap is set and the sum has reached it, and the log says so
-- once if it is marked and never otherwise, however many commands follow.
pub accumulate_all-metered :
    (c : Settings) (s : Registry) (sid : Uuid) (times : List ℕ)
    → Dict.get sid s.wasted_ms ≡ none
    → Dict.get sid s.wasted_exhausted ≡ none
    → count_spent sid s.log ≡ 0
    → (member sid (accumulate_all c s sid times).wasted_exhausted
        ≡ (leb 1 c.session_wasted_ms_cap && leb c.session_wasted_ms_cap (sum times)))
      × (count_spent sid (accumulate_all c s sid times).log ≡ (
          if leb 1 c.session_wasted_ms_cap && leb c.session_wasted_ms_cap (sum times)
          then 1
          else 0))
unfolding is_in
accumulate_all-metered c s sid times no_time unmarked silent =
    let h : IsMetered c s sid = record {
      marked = ground (arith, no_time, unmarked);
      logged = ground (arith, unmarked, silent);
    } in
    let after = accumulate_all-IsMetered c s sid times h in
    let total = accumulate_all-total c s sid times in
    (
      ground (arith, after.marked, total, no_time),
      ground (arith, after.marked, after.logged, total, no_time),
    )
