-- ===== src/Dashboard/Alerts/Pages.antt =====
-- Following the cursor through the alerts, when their times strictly decrease as they are read.
use anglerfish_ai.Base.{
  ℕ, zero, suc, ◌+◌, ◌-◌, ◌<◌, ◌≡◌, refl, ap, sym, ◌∙◌, Bool, true, List, [], ◌∷◌, Option, none,
  some, inl, inr, Bool-cases, ltb, leb, select, take, arith,
}
use anglerfish_ai.Base.Text.{Text}
use anglerfish_ai.Dashboard.Alerts.{
  AuditEvent, Alert, relevant, next_offset, is_after, render_alert, visit, counted, append_alert,
  scan,
}

unfoldable pub alert_of : AuditEvent → Option (Text × ℕ) → List Alert → List Alert
alert_of e none rest = rest
alert_of e (some (label, ts)) rest = render_alert e label ts 0 ∷ rest

-- The alerts of a log, each as the first of its millisecond.
unfoldable pub alerts_of : Option Text → List AuditEvent → List Alert
unfolding alert_of
alerts_of kind [] = []
alerts_of kind (e ∷ events) = alert_of e (relevant kind e) (alerts_of kind events)

abbrev pub is_earlier : ℕ → Option ℕ → Bool
is_earlier ts none = true
is_earlier ts (some t) = ltb ts t

-- The alerts get older and older, from a moment on.
abbrev pub Strict : Option ℕ → List Alert → Type 0
Strict last [] = Unit
Strict last (a ∷ alerts) = (is_earlier a.ts_ms last ≡ true) × Strict (some a.ts_ms) alerts

abbrev pub beyond : Option (ℕ × ℕ) → Alert → Bool
beyond bound a = is_after bound a.ts_ms 0

next_offset-zero :
    (last : Option ℕ) (offset ts : ℕ) → is_earlier ts last ≡ true → next_offset last offset ts ≡ 0
unfolding next_offset
next_offset-zero none offset ts h = refl
next_offset-zero (some t) offset ts h = ground arith

take-none : (n : ℕ) → take {A = Alert} n [] ≡ []
take-none zero = refl
take-none (suc n) = refl

module _ (limit : ℕ) (bound : Option (ℕ × ℕ)) where
  take-next :
      (n : ℕ) (a : Alert) (alerts : List Alert)
      → n < limit
      → take (limit - n) (a ∷ alerts) ≡ a ∷ take (limit - (n + 1)) alerts
  take-next n a alerts room =
      let more : limit - n ≡ suc (limit - (n + 1)) = omega arith in rw more refl

  append_alert-take :
      (n : ℕ) (a : Alert) (rest alerts : List Alert)
      → n < limit
      → (n + 1 < limit → rest ≡ take (limit - (n + 1)) alerts)
      → append_alert limit (n + 1) (some a) rest ≡ take (limit - n) (a ∷ alerts)
  unfolding append_alert
  append_alert-take n a rest alerts room follows = elim (Bool-cases (leb limit (n + 1))) [
    | inl full ↦
        (let none_left : limit - (n + 1) ≡ 0 = ground arith in
          rw full (sym (take-next n a alerts room ∙ ap (λ (k : ℕ). a ∷ take k alerts) none_left)))
    | inr space ↦ rw space (
        ap (λ (xs : List Alert). a ∷ xs) (follows (ground arith)) ∙ sym (take-next n a alerts room))
  ]

  -- One turn of the loop, from what the later turns give.
  visit-take :
      (e : AuditEvent) (r : Option (Text × ℕ)) (last : Option ℕ) (offset n : ℕ)
      (alerts : List Alert) (later : Option ℕ → ℕ → ℕ → List Alert)
      → n < limit
      → Strict last (alert_of e r alerts)
      → ((last : Option ℕ) (offset n : ℕ)
          → n < limit
          → Strict last alerts
          → later last offset n ≡ take (limit - n) (select (beyond bound) alerts))
      → append_alert limit
          (counted n (visit bound e r last offset).1)
          (visit bound e r last offset).1
          (later
            (visit bound e r last offset).0.0
            (visit bound e r last offset).0.1
            (counted n (visit bound e r last offset).1))
        ≡ take (limit - n) (select (beyond bound) (alert_of e r alerts))
  unfolding alert_of visit append_alert
  visit-take e none last offset n alerts later room h follows = follows last offset n room h
  visit-take e (some (label, ts)) last offset n alerts later room (earlier, h) follows =
      let zero_offset : next_offset last offset ts ≡ 0 = next_offset-zero last offset ts earlier in
      rw zero_offset (elim (Bool-cases (is_after bound ts 0)) [
        | inl after ↦ rw after (
            append_alert-take n (render_alert e label ts 0) (later (some ts) 0 (n + 1))
              (select (beyond bound) alerts) room (λ room'. follows (some ts) 0 (n + 1) room' h))
        | inr before ↦ rw before (follows (some ts) 0 n room h)
      ])

pub scan-select :
    (limit : ℕ) (kind : Option Text) (bound : Option (ℕ × ℕ)) (events : List AuditEvent)
    (last : Option ℕ) (offset n : ℕ)
    → n < limit
    → Strict last (alerts_of kind events)
    → scan limit kind bound last offset n events
      ≡ take (limit - n) (select (beyond bound) (alerts_of kind events))
unfolding scan alerts_of
scan-select limit kind bound [] last offset n room h = sym (take-none (limit - n))
scan-select limit kind bound (e ∷ events) last offset n room h =
    visit-take limit bound e (relevant kind e) last offset n (alerts_of kind events)
      (λ last' offset' n'. scan limit kind bound last' offset' n' events) room h
      (scan-select limit kind bound events)
