-- ===== src/Bridge/Registry/Forgetting.antt =====
-- What a session leaves behind in the registry when it ends or goes idle.
use anglerfish_ai.Base.{
  ℕ, ◌+◌, ◌-◌, ◌<◌, ◌≡◌, refl, ap, ◌∙◌, map, select, Bool, true, false, ◌||◌, List, [], ◌∷◌, Option,
  none, some, inl, inr, Bool-cases, ltb, ◌==◌, if◌then◌else◌, any, number_key, number_iff, arith,
}
use anglerfish_ai.Base.Dict
use anglerfish_ai.Base.Dict.{Dict}
use anglerfish_ai.Base.Text.{Text}
use anglerfish_ai.Llm.Budget.{TokenBudget}
use anglerfish_ai.Threat.Scorer.{ThreatAssessment}
use anglerfish_ai.Bridge.RateLimit.{Uuid}
use anglerfish_ai.Bridge.CounterDeception.{CounterDeceptionState}
use anglerfish_ai.Bridge.Registry.{
  Settings, Registry, end_session_budget, end_all, idle_sessions, evict_idle_sessions,
}

-- Everything the registry knows of one session.
pub record View : Type 0 where
  pub budget : Option TokenBudget
  pub last_clarification : Option ℕ
  pub wasted_ms : Option ℕ
  pub wasted_exhausted : Option (Unit {0})
  pub latest_threat : Option ThreatAssessment
  pub honeytoken_placed : Option (Unit {0})
  pub source_ip : Option Text
  pub counter_deception : Option CounterDeceptionState
  pub counter_deception_engaged : Option (Unit {0})
  pub last_activity : Option ℕ

abbrev pub view : Uuid → Registry → View
view sid s = record {
  budget = Dict.get sid s.budgets;
  last_clarification = Dict.get sid s.last_clarification;
  wasted_ms = Dict.get sid s.wasted_ms;
  wasted_exhausted = Dict.get sid s.wasted_exhausted;
  latest_threat = Dict.get sid s.latest_threat;
  honeytoken_placed = Dict.get sid s.honeytoken_placed_for;
  source_ip = Dict.get sid s.source_ip_by_session;
  counter_deception = Dict.get sid s.counter_deception_state;
  counter_deception_engaged = Dict.get sid s.counter_deception_engaged_for;
  last_activity = Dict.get sid s.session_last_activity;
}

abbrev pub nothing : View
nothing = record {
  budget = none;
  last_clarification = none;
  wasted_ms = none;
  wasted_exhausted = none;
  latest_threat = none;
  honeytoken_placed = none;
  source_ip = none;
  counter_deception = none;
  counter_deception_engaged = none;
  last_activity = none;
}

get-removed {ℓ} :
    {V : Type ℓ} (sid other : Uuid) (d : Dict Uuid V)
    → (sid == other) ≡ true
    → Dict.get other (Dict.remove sid d) ≡ none
get-removed sid other d h = rw (Dict.get-remove sid other d, h) refl

get-kept {ℓ} :
    {V : Type ℓ} (sid other : Uuid) (d : Dict Uuid V)
    → (sid == other) ≡ false
    → Dict.get other (Dict.remove sid d) ≡ Dict.get other d
get-kept sid other d h = rw (Dict.get-remove sid other d, h) refl

-- Ending a session forgets everything about it and nothing about any other session; what is kept for
-- source addresses stays.
pub end_session_budget-view :
    (s : Registry) (sid other : Uuid)
    → (view other (end_session_budget s sid) ≡ (if sid == other then nothing else view other s))
      × ((end_session_budget s sid).counter_deception_paths_by_source_ip
          ≡ s.counter_deception_paths_by_source_ip)
unfolding end_session_budget
end_session_budget-view s sid other = elim (Bool-cases (sid == other)) [
  | inl here ↦
      rw
        (
          here,
          get-removed sid other s.budgets here,
          get-removed sid other s.last_clarification here,
          get-removed sid other s.wasted_ms here,
          get-removed sid other s.wasted_exhausted here,
          get-removed sid other s.latest_threat here,
          get-removed sid other s.honeytoken_placed_for here,
          get-removed sid other s.source_ip_by_session here,
          get-removed sid other s.counter_deception_state here,
          get-removed sid other s.counter_deception_engaged_for here,
          get-removed sid other s.session_last_activity here,
        )
        (refl, refl)
  | inr apart ↦
      rw
        (
          apart,
          get-kept sid other s.budgets apart,
          get-kept sid other s.last_clarification apart,
          get-kept sid other s.wasted_ms apart,
          get-kept sid other s.wasted_exhausted apart,
          get-kept sid other s.latest_threat apart,
          get-kept sid other s.honeytoken_placed_for apart,
          get-kept sid other s.source_ip_by_session apart,
          get-kept sid other s.counter_deception_state apart,
          get-kept sid other s.counter_deception_engaged_for apart,
          get-kept sid other s.session_last_activity apart,
        )
        (refl, refl)
]

forget-either :
    (p q : Bool) (v w : View)
    → w ≡ (if p then nothing else v)
    → (if q then nothing else w) ≡ (if p || q then nothing else v)
forget-either true true v w e = refl
forget-either true false v w e = e
forget-either false true v w e = refl
forget-either false false v w e = e

-- Ending sessions one by one: those that are listed are forgotten.
end_all-view :
    (s : Registry) (sids : List Uuid) (other : Uuid)
    → view other (end_all s sids)
      ≡ (if any (λ sid. sid == other) sids then nothing else view other s)
unfolding end_all
end_all-view s [] other = refl
end_all-view s (sid ∷ sids) other =
    let (ended, _) = end_session_budget-view s sid other in
    let rest = end_all-view (end_session_budget s sid) sids other in
    rest
    ∙ forget-either (sid == other) (any (λ k. k == other) sids) (view other s)
        (view other (end_session_budget s sid)) ended

-- The sweep forgets exactly the sessions it returns, which the caller drops from its own table, and
-- leaves every other session as it was.
pub evict_idle_sessions-view :
    (c : Settings) (s : Registry) (now : ℕ) (other : Uuid)
    → view other (evict_idle_sessions c s now).0 ≡ (
        if any (λ sid. sid == other) (evict_idle_sessions c s now).1 then nothing else view other s)
unfolding evict_idle_sessions
evict_idle_sessions-view c s now other = end_all-view s (idle_sessions c s now) other

idle-listed :
    (cutoff : ℕ) (other last : ℕ) (d : Dict Uuid ℕ)
    → Dict.get other d ≡ some last
    → last < cutoff
    → any (λ sid. sid == other) (map (λ e. e.0) (select (λ e. ltb e.1 cutoff) d)) ≡ true
idle-listed cutoff other last [] h k = ground arith
idle-listed cutoff other last ((sid, t) ∷ d) h k = elim (Bool-cases (sid == other)) [
  | inl here ↦ ground (arith, number_iff sid other)
  | inr apart ↦ ground (arith, idle-listed cutoff other last d)
]

-- A session whose last request is longer ago than the cutoff leaves nothing behind after a sweep.
pub evict_idle_sessions-idle :
    (c : Settings) (s : Registry) (now : ℕ) (other : Uuid) (last : ℕ)
    → Dict.get other s.session_last_activity ≡ some last
    → last + c.session_idle_eviction_s < now
    → view other (evict_idle_sessions c s now).0 ≡ nothing
unfolding evict_idle_sessions idle_sessions
evict_idle_sessions-idle c s now other last found idle =
    let listed =
      idle-listed (now - c.session_idle_eviction_s) other last s.session_last_activity found
        (omega arith) in
    end_all-view s (idle_sessions c s now) other
    ∙ ap (λ (b : Bool). if b then nothing else view other s) listed
