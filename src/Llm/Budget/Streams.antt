-- ===== src/Llm/Budget/Streams.antt =====
-- The budget's promise under the streams of llm/client.py, which reserve, run side by side and settle.
use anglerfish_ai.Base.{ℕ, ◌+◌, ◌-◌, ◌*◌, ◌≤◌, ◌<◌, ◌≡◌, ◌≢◌, refl, ap, arith, ◌∙◌, ◌↔◌}
use anglerfish_ai.Base.Result.{ok}
use anglerfish_ai.Llm.Budget.{
  LlmRole, fast, deep, embed, TokenBudget, cap_of, consumed, remaining, check, consume, settle,
}

-- What an operation on one role does to it, and to any role.
pub consumed-consume :
    (r : LlmRole) (n : ℕ) (b : TokenBudget)
    → (consumed r (consume r n b) ≡ consumed r b + n) × (cap_of r (consume r n b) ≡ cap_of r b)
unfolding consumed consume cap_of
consumed-consume fast n b = (refl, refl)
consumed-consume deep n b = (refl, refl)
consumed-consume embed n b = (refl, refl)

pub consumed-settle :
    (r : LlmRole) (reserved actual : ℕ) (b : TokenBudget)
    → (consumed r (settle r reserved actual b) ≡ consumed r b + actual - reserved)
      × (cap_of r (settle r reserved actual b) ≡ cap_of r b)
unfolding consumed settle cap_of
consumed-settle fast x y b = (refl, refl)
consumed-settle deep x y b = (refl, refl)
consumed-settle embed x y b = (refl, refl)

pub check-ok_iff :
    (r : LlmRole) (b : TokenBudget) → (check r b ≡ ok tt) ↔ (consumed r b < cap_of r b)
unfolding check consumed cap_of
check-ok_iff fast b = ground arith
check-ok_iff deep b = ground arith
check-ok_iff embed b = ground arith

-- No operation on one role touches what another has consumed.
pub roles_independent :
    (r q : LlmRole) (n reserved actual : ℕ) (b : TokenBudget)
    → r ≢ q
    → (consumed q (consume r n b) ≡ consumed q b)
      × (consumed q (settle r reserved actual b) ≡ consumed q b)
      × (remaining q (consume r n b) ≡ remaining q b)
      × (check q (settle r reserved actual b) ≡ check q b)
unfolding consumed consume settle remaining check
roles_independent fast deep n x y b h = (refl, refl, refl, refl)
roles_independent fast embed n x y b h = (refl, refl, refl, refl)
roles_independent deep fast n x y b h = (refl, refl, refl, refl)
roles_independent deep embed n x y b h = (refl, refl, refl, refl)
roles_independent embed fast n x y b h = (refl, refl, refl, refl)
roles_independent embed deep n x y b h = (refl, refl, refl, refl)
roles_independent fast fast n x y b h = absurd (h refl)
roles_independent deep deep n x y b h = absurd (h refl)
roles_independent embed embed n x y b h = absurd (h refl)

-- The streams of one session and role: those in flight, and the tokens of those that have ended.
pub record Streams : Type 0 where
  pub budget : TokenBudget
  pub in_flight : ℕ
  pub settled : ℕ

module _ (role : LlmRole) (projected : ℕ) where
  pub data Step (s t : Streams) : Type 0 where
    reserve :
        check role s.budget ≡ ok tt
        → t ≡ record s { budget = consume role projected s.budget; in_flight = s.in_flight + 1 }
        → Step s t
    finish :
        (actual : ℕ)
        → 0 < s.in_flight
        → t ≡ record {
          budget = settle role projected actual s.budget;
          in_flight = s.in_flight - 1;
          settled = s.settled + actual;
        }
        → Step s t

  pub data Reach (s : Streams) : Streams → Type 0 where
    here : Reach s s
    next : {t u : Streams} → Reach s t → Step t u → Reach s u

  pub record IsAccounted (cap : ℕ) (s : Streams) : Type 0 where
    pub total : consumed role s.budget ≡ s.settled + s.in_flight * projected
    pub capped : cap_of role s.budget ≡ cap
    pub bounded : s.in_flight * projected ≤ cap + projected

  one_less : (k : ℕ) → 0 < k → k * projected ≡ (k - 1) * projected + projected
  one_less k h =
      let e : k ≡ (k - 1) + 1 = omega arith in omega (arith, ap (λ (x : ℕ). x * projected) e)

  Step-IsAccounted : {cap : ℕ} {s t : Streams} → Step s t → IsAccounted cap s → IsAccounted cap t
  Step-IsAccounted {cap} {s} {t} (reserve room e) h =
      let (total, capped) = consumed-consume role projected s.budget in
      let room' : consumed role s.budget < cap_of role s.budget =
        (check-ok_iff role s.budget).0 room in
      rw e (record {
        total = omega (arith, total, h.total);
        capped = capped ∙ h.capped;
        bounded = omega (arith, room', h.total, h.capped);
      })
  Step-IsAccounted {cap} {s} {t} (finish actual some_left e) h =
      let (total, capped) = consumed-settle role projected actual s.budget in
      rw e (record {
        total = omega (arith, total, h.total, one_less s.in_flight some_left);
        capped = capped ∙ h.capped;
        bounded = omega (arith, h.bounded, one_less s.in_flight some_left);
      })

  Reach-IsAccounted : {cap : ℕ} {s t : Streams} → IsAccounted cap s → Reach s t → IsAccounted cap t
  Reach-IsAccounted h here = h
  Reach-IsAccounted h (next r st) = Step-IsAccounted st (Reach-IsAccounted h r)

  -- From a fresh budget, however the streams of a session interleave: the counter is what the ended
  -- streams used and what the running ones have reserved, so the clamp at zero never bites; and the
  -- reservations in flight exceed the cap by at most one reservation, so concurrent commands
  -- cannot all pass the check.
  pub streams_accounted :
      (b : TokenBudget) {s : Streams}
      → consumed role b ≡ 0
      → Reach (record { budget = b; in_flight = 0; settled = 0 }) s
      → (consumed role s.budget ≡ s.settled + s.in_flight * projected)
        × (s.in_flight * projected ≤ cap_of role b + projected)
        × ((check role s.budget ≡ ok tt) ↔ (s.settled + s.in_flight * projected < cap_of role b))
  streams_accounted b {s} fresh r =
      let h : IsAccounted (cap_of role b) s =
        Reach-IsAccounted
          (record { total = omega (arith, fresh); capped = refl; bounded = omega arith }) r in
      let (passes, refuses) = check-ok_iff role s.budget in
      (
        h.total,
        h.bounded,
        (
          (λ passed. omega (arith, passes passed, h.total, h.capped)),
          (λ room. refuses (omega (arith, room, h.total, h.capped))),
        ),
      )
