-- ===== src/Lure/Limiter/Tests.antt =====
-- Runs of `_PerIPLimiter` and its theorems at concrete inputs.
use anglerfish_ai.Base.{◌+◌, ◌≤◌, ◌≡◌, ◌≢◌, refl, sym, ap, [], ◌∷◌, length, arith}
use anglerfish_ai.Base.Text.{Text, text}
use anglerfish_ai.Lure.Limiter.{
  PerIpLimiter, Verdict, accepted, recent_sweep_threshold, make_limiter, concurrent_for,
  maybe_sweep, admit_window, admit, release,
}
use anglerfish_ai.Lure.Limiter.Windows.{Short}
use anglerfish_ai.Lure.Limiter.Live.{
  System, count, after_verdict, Reach, start, next, connect, limits_hold,
}

program : Unit {0}
unfolding make_limiter concurrent_for maybe_sweep admit_window admit release
program = tt

abbrev alice : Text
alice = text "10.0.0.7"

abbrev bob : Text
bob = text "10.0.0.8"

-- Two connections an address, three a minute, two in all; sixty ticks to the window.
abbrev fresh : PerIpLimiter
fresh = make_limiter 2 3 2

abbrev one_in : PerIpLimiter
one_in = record {
  max_concurrent = 2;
  max_rpm = 3;
  max_total = 2;
  total = 1;
  concurrent = (alice, 1) ∷ [];
  recent = (alice, 100 ∷ []) ∷ [];
}

one_in_runs : admit 60 fresh alice 100 ≡ (one_in, accepted)
unfolding program
one_in_runs = refl

abbrev first_live : System
first_live = record { limiter = one_in; live = alice ∷ [] }

reached : Reach 60 2 3 2 first_live
reached = next start (connect alice 100 (sym (ap at one_in_runs)))
  where
    at : PerIpLimiter × Verdict → System
    at r = record { limiter = r.0; live = after_verdict r.1 alice [] }

limits_hold_example :
    (length first_live.live ≤ 2)
    × (count alice first_live.live ≤ 2)
    × (one_in.total ≡ length first_live.live)
    × (concurrent_for one_in alice ≡ count alice first_live.live)
    × (length one_in.recent ≤ recent_sweep_threshold + 1)
    × Short 3 one_in.recent
limits_hold_example = limits_hold 60 2 3 2 alice reached

abbrev crowded : PerIpLimiter
crowded = record one_in { total = 2 }

refused : (admit 60 crowded bob 101).1 ≢ accepted
unfolding program
refused h = ground arith
