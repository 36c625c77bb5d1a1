-- ===== src/Dashboard/Alerts/Cursor.antt =====
-- Where the cursor of a page points, when the times of the alerts strictly decrease as they are read.
use anglerfish_ai.Base.{
  ℕ, suc, ◌+◌, ◌-◌, ◌≤◌, ◌<◌, ◌≡◌, refl, ap, sym, ◌∙◌, true, List, [], ◌∷◌, ◌++◌, Option, none,
  some, leb, if◌then◌else◌, select, take, length, last?, All, length-append, arith,
}
use anglerfish_ai.Base.Text.{Text}
use anglerfish_ai.Dashboard.Alerts.{
  AuditEvent, Alert, is_known, relevant, is_after, render_alert, cursor_of, page_of, list_alerts,
}
use anglerfish_ai.Dashboard.Alerts.Pages.{alerts_of, alert_of, Strict, beyond, scan-select}

prepend :
    (e : AuditEvent) (r : Option (Text × ℕ)) (rest : List Alert)
    → All (λ a. a.offset ≡ 0) rest
    → All (λ a. a.offset ≡ 0) (alert_of e r rest)
unfolding alert_of render_alert
prepend e none rest h = h
prepend e (some (label, ts)) rest h = (refl, h)

alerts_of-first :
    (kind : Option Text) (events : List AuditEvent)
    → All (λ a. a.offset ≡ 0) (alerts_of kind events)
unfolding alerts_of
alerts_of-first kind [] = tt
alerts_of-first kind (e ∷ events) =
    prepend e (relevant kind e) (alerts_of kind events) (alerts_of-first kind events)

select-all : (alerts : List Alert) → select (beyond none) alerts ≡ alerts
unfolding is_after
select-all [] = refl
select-all (a ∷ alerts) = ap (λ (xs : List Alert). a ∷ xs) (select-all alerts)

select-older :
    (t u : ℕ) (alerts : List Alert)
    → u ≤ t
    → Strict (some u) alerts
    → select (beyond (some (t, 0))) alerts ≡ alerts
unfolding is_after
select-older t u [] h s = refl
select-older t u (a ∷ alerts) h (earlier, s) = ground (arith, select-older t a.ts_ms alerts)

Strict-before :
    (t : ℕ) (front : List Alert) (a : Alert) (back : List Alert)
    → Strict (some t) (front ++ a ∷ back)
    → a.ts_ms < t
Strict-before t [] a back (earlier, s) = ground arith
Strict-before t (x ∷ front) a back (earlier, s) =
    ground (arith, Strict-before x.ts_ms front a back s)

select-cursor :
    (last : Option ℕ) (front : List Alert) (a : Alert) (back : List Alert)
    → Strict last (front ++ a ∷ back)
    → select (beyond (some (a.ts_ms, 0))) (front ++ a ∷ back) ≡ back
unfolding is_after
select-cursor last [] a back (earlier, s) = ground (arith, select-older a.ts_ms a.ts_ms back)
select-cursor last (x ∷ front) a back (earlier, s) =
    ground
      (arith, Strict-before x.ts_ms front a back s, select-cursor (some x.ts_ms) front a back s)

take-front :
    (front : List Alert) (a : Alert) (back : List Alert)
    → take (length front + 1) (front ++ a ∷ back) ≡ front ++ a ∷ []
take-front [] a back = refl
take-front (x ∷ front) a back =
    let more : suc (length front) + 1 ≡ suc (length front + 1) = omega arith in
    rw more (ap (λ (xs : List Alert). x ∷ xs) (take-front front a back))

last-front : (front : List Alert) (a : Alert) → last? (front ++ a ∷ []) ≡ some a
last-front [] a = refl
last-front (x ∷ []) a = refl
last-front (x ∷ y ∷ front) a = last-front (y ∷ front) a

All-middle :
    (P : Alert → Type 0) (front : List Alert) (a : Alert) (back : List Alert)
    → All P (front ++ a ∷ back)
    → P a
All-middle P [] a back h = h.0
All-middle P (x ∷ front) a back h = All-middle P front a back h.1

transport-All :
    {xs ys : List Alert} → xs ≡ ys → All (λ a. a.offset ≡ 0) xs → All (λ a. a.offset ≡ 0) ys
transport-All e h = rw⁻¹ e h

Strict-of : {xs ys : List Alert} → xs ≡ ys → Strict none xs → Strict none ys
Strict-of e h = rw⁻¹ e h

module _ (limit : ℕ) (kind : Option Text) (events : List AuditEvent) where
  -- A page is the first `limit` alerts beyond the cursor.
  list_alerts-items :
      (cursor : Option (ℕ × ℕ))
      → is_known kind ≡ true
      → 0 < limit
      → Strict none (alerts_of kind events)
      → (list_alerts limit cursor kind events).items
        ≡ take limit (select (beyond cursor) (alerts_of kind events))
  unfolding list_alerts page_of
  list_alerts-items cursor known some_room s =
      let whole : limit - 0 ≡ limit = omega arith in
      rw known (
        scan-select limit kind cursor events none 0 0 some_room s
        ∙ ap (λ (k : ℕ). take k (select (beyond cursor) (alerts_of kind events))) whole)

  list_alerts-cursor :
      (cursor : Option (ℕ × ℕ))
      → is_known kind ≡ true
      → (list_alerts limit cursor kind events).next_cursor ≡ (
          if leb limit (length (list_alerts limit cursor kind events).items)
          then cursor_of (last? (list_alerts limit cursor kind events).items)
          else none)
  unfolding list_alerts page_of
  list_alerts-cursor cursor known = rw known refl

  -- For a kind that is known, or none: when the times of the alerts, in the order in which they are
  -- read, strictly decrease in milliseconds, and the first page is full, that page and the page at
  -- its cursor are the first `limit` alerts and the next ones, so that none is lost and none is shown
  -- twice. Alerts that share a millisecond or are read out of the order of their times are excluded.
  pub list_alerts-continues :
      (front : List Alert) (a : Alert) (back : List Alert)
      → is_known kind ≡ true
      → Strict none (alerts_of kind events)
      → alerts_of kind events ≡ front ++ a ∷ back
      → length front + 1 ≡ limit
      → ((list_alerts limit none kind events).items ≡ front ++ a ∷ [])
        × ((list_alerts limit (list_alerts limit none kind events).next_cursor kind events).items
            ≡ take limit back)
  unfolding cursor_of
  list_alerts-continues front a back known s shape size =
      let some_room : 0 < limit = omega (arith, size) in
      let first : (list_alerts limit none kind events).items ≡ front ++ a ∷ [] =
        list_alerts-items none known some_room s
        ∙ ap (take limit) (select-all (alerts_of kind events) ∙ shape)
        ∙ ap (λ (k : ℕ). take k (front ++ a ∷ back)) (sym size)
        ∙ take-front front a back in
      let full : leb limit (length (front ++ a ∷ [])) ≡ true =
        ground (arith, size, length-append front (a ∷ [])) in
      let first_of_ms : a.offset ≡ 0 =
        All-middle (λ x. x.offset ≡ 0) front a back
          (transport-All shape (alerts_of-first kind events)) in
      let at : (list_alerts limit none kind events).next_cursor ≡ some (a.ts_ms, 0) =
        list_alerts-cursor none known
        ∙ ap (λ (xs : List Alert). if leb limit (length xs) then cursor_of (last? xs) else none)
            first
        ∙ rw (full, last-front front a) (ap (λ (k : ℕ). some (a.ts_ms, k)) first_of_ms) in
      let strict = Strict-of shape s in
      (
        first,
        rw at (
            list_alerts-items (some (a.ts_ms, 0)) known some_room s
            ∙ ap (λ (xs : List Alert). take limit (select (beyond (some (a.ts_ms, 0))) xs)) shape
            ∙ ap (take limit) (select-cursor none front a back strict)),
      )
