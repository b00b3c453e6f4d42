-- ===== src/View/Timeline/Bars.antt =====
-- internal/view/timeline.go: where a task's bar stands in a window.
use agentboard.Prelude.{
  ℕ, zero, suc, ◌+◌, ◌-◌, ◌≤◌, ◌<◌, min, max, ◌≡◌, refl, ap, ◌∙◌, inl, inr, Bool, true, false, not,
  ◌&&◌, ◌||◌, Option, none, some, arith, ltb, leb, if◌then◌else◌, Bool-cases,
}
use agentboard.Prelude.Int.{ℤ, pos, negsuc, neg_ℕ}
use agentboard.Model.Data.{Task}
use agentboard.Model.Date
use agentboard.Model.Date.{Date}
use agentboard.Model.Calendar.{day_number}
use agentboard.Model.Calendar.Order.{IsDate, before_iff}
use agentboard.Model.Calendar.Shift.{add_days, day_number-add_days, add_days-IsDate}
use agentboard.View.Timeline.{
  days_between, longest_days, Ratio, share_of, share_within, fraction, range_of, task_range, Bar,
  bar_of, bar_span,
}

share_of-le : (total : ℕ) (z : ℤ) → (share_of total z).num ≤ (share_of total z).den
share_of-le total (pos n) = ground arith
share_of-le total (negsuc n) = omega arith

share_within-le : (total z : ℤ) → (share_within total z).num ≤ (share_within total z).den
share_within-le (pos zero) z = omega arith
share_within-le (pos (suc n)) z = share_of-le (suc n) z
share_within-le (negsuc n) z = omega arith

share_within-den : (total y z : ℤ) → (share_within total y).den ≡ (share_within total z).den
share_within-den (pos zero) y z = refl
share_within-den (pos (suc n)) (pos a) (pos b) = refl
share_within-den (pos (suc n)) (pos a) (negsuc b) = refl
share_within-den (pos (suc n)) (negsuc a) (pos b) = refl
share_within-den (pos (suc n)) (negsuc a) (negsuc b) = refl
share_within-den (negsuc n) y z = refl

fraction-le : (d ws we : Date) → (fraction d ws we).num ≤ (fraction d ws we).den
unfolding fraction
fraction-le d ws we = share_within-le (days_between ws we) (days_between ws d)

fraction-den : (d e ws we : Date) → (fraction d ws we).den ≡ (fraction e ws we).den
unfolding fraction
fraction-den d e ws we =
    share_within-den (days_between ws we) (days_between ws d) (days_between ws e)

bar_of-within :
    (ws we : Date) (r : Option (Date × Date)) (b : Bar)
    → bar_of ws we r ≡ some b
    → (1 ≤ b.width) × (b.left.num + b.width ≤ b.left.den)
unfolding bar_of
bar_of-within ws we none b h = cc
bar_of-within ws we (some (s, e)) b h =
    between (not (Date.before s we) || not (Date.before ws e)) (fraction s ws we) (fraction e ws we)
      (fraction-le e ws we) (fraction-den s e ws we) b h
  where
    between :
        (t : Bool) (l r : Ratio)
        → r.num ≤ r.den
        → l.den ≡ r.den
        → (b : Bar)
        → (if t
            then none
            else if leb r.num l.num
            then none
            else some (record { left = l; width = r.num - l.num }))
          ≡ some b
        → (1 ≤ b.width) × (b.left.num + b.width ≤ b.left.den)
    between t l r le e b h = ground arith

-- A bar has a width, and stands within the window.
bar_span-within :
    (ws we : Date) (t : Task) (b : Bar)
    → bar_span ws we t ≡ some b
    → (1 ≤ b.width) × (b.left.num + b.width ≤ b.left.den)
unfolding bar_span
bar_span-within ws we t b h = bar_of-within ws we (task_range t) b h

share_pos :
    (total n : ℕ)
    → 1 ≤ total
    → share_within (pos total) (pos n) ≡ record { num = min n total; den = total }
share_pos zero n h = absurd (omega arith)
share_pos (suc t) n h = ap (λ k. record { num = k; den = suc t }) (least n (suc t))
  where
    least : (n m : ℕ) → (if ltb m n then m else n) ≡ min n m
    least n m = ground arith

share_neg :
    (total n : ℕ) → 1 ≤ total → share_within (pos total) (neg_ℕ n) ≡ record { num = 0; den = total }
share_neg zero n h = absurd (omega arith)
share_neg (suc t) zero h =
    share_pos (suc t) 0 h ∙ ap (λ k. record { num = k; den = suc t }) (omega arith)
share_neg (suc t) (suc n) h = refl

-- The share of the days from `w` to `d`, of a window from `w` to `e`.
shares :
    (w e d : ℕ)
    → w < e
    → e - w ≤ longest_days
    → share_within
        (if leb w e then pos (min (e - w) longest_days) else neg_ℕ (min (w - e) longest_days))
        (if leb w d then pos (min (d - w) longest_days) else neg_ℕ (min (w - d) longest_days))
      ≡ record { num = min (d - w) (e - w); den = e - w }
shares w e d lt small =
    let total : min (e - w) longest_days ≡ e - w = omega arith in
    rw (leb_of w e (omega arith), total)
      (elim (Bool-cases (leb w d)) [
        | inl le ↦ rw le (
            share_pos (e - w) (min (d - w) longest_days) (omega arith)
            ∙ ap (λ k. record { num = k; den = e - w }) (omega arith))
        | inr gt ↦ rw gt (
            share_neg (e - w) (min (w - d) longest_days) (omega arith)
            ∙ ap (λ k. record { num = k; den = e - w }) (later w d (e - w) gt))
      ])
  where
    leb_of : (m n : ℕ) → m ≤ n → leb m n ≡ true
    leb_of m n h = ground arith

    later : (m n k : ℕ) → leb m n ≡ false → 0 ≡ min (n - m) k
    later m n k h = ground arith

fraction_lem :
    (d ws we : Date)
    → day_number ws < day_number we
    → day_number we - day_number ws ≤ longest_days
    → fraction d ws we ≡ record {
      num = min (day_number d - day_number ws) (day_number we - day_number ws);
      den = day_number we - day_number ws;
    }
unfolding fraction days_between
fraction_lem d ws we lt small = shares (day_number ws) (day_number we) (day_number d) lt small

-- The bar of the days from `s` to `e`, in a window from `w` to `v`.
unfoldable pub day_bar : ℕ → ℕ → ℕ → ℕ → Bar
day_bar w v s e = record {
  left = record { num = s - w; den = v - w };
  width = min (e + 1) v - max s w;
}

unfolding_bar :
    (w v s e : ℕ)
    → w < v
    → leb s e ≡ true
    → (if not (ltb s v) || not (ltb w (e + 1))
        then none
        else if leb (min (e + 1 - w) (v - w)) (min (s - w) (v - w))
        then none
        else some (record {
          left = record { num = min (s - w) (v - w); den = v - w };
          width = min (e + 1 - w) (v - w) - min (s - w) (v - w);
        }))
      ≡ (if leb s e && ltb s v && leb w e then some (day_bar w v s e) else none)
unfolding day_bar
unfolding_bar w v s e lt le = ground arith

-- In a window of at most 106751 days, the bar of a task with both dates is the part of its days that is in the
-- window, in days; there is no bar exactly if no day is, or the task ends before it starts.
pub bar_span_lem :
    (ws we s e : Date) (t : Task)
    → IsDate ws
    → IsDate we
    → IsDate s
    → IsDate e
    → day_number ws < day_number we
    → day_number we - day_number ws ≤ longest_days
    → t.start_date ≡ some s
    → t.end_date ≡ some e
    → bar_span ws we t ≡ (
        if leb (day_number s) (day_number e)
          && ltb (day_number s) (day_number we)
          && leb (day_number ws) (day_number e)
        then some (day_bar (day_number ws) (day_number we) (day_number s) (day_number e))
        else none)
unfolding bar_span task_range range_of bar_of
bar_span_lem ws we s e t vws vwe vs ve lt small hs he =
    let next : day_number (add_days (pos 1) e) ≡ day_number e + 1 =
      omega (arith, day_number-add_days (pos 1) e) in
    rw (hs, he, before_iff e s ve vs)
      (elim (Bool-cases (ltb (day_number e) (day_number s))) [
        | inl back ↦ rw (back, ltb_leb (day_number e) (day_number s) true back) refl
        | inr le ↦
            rw
              (
                le,
                before_iff s we vs vwe,
                before_iff ws (add_days (pos 1) e) vws (add_days-IsDate (pos 1) e),
                fraction_lem s ws we lt small,
                fraction_lem (add_days (pos 1) e) ws we lt small,
                next,
              )
              (unfolding_bar (day_number ws) (day_number we) (day_number s) (day_number e) lt
                (ltb_leb (day_number e) (day_number s) false le))
      ])
  where
    ltb_leb : (m n : ℕ) (b : Bool) → ltb m n ≡ b → leb n m ≡ not b
    ltb_leb m n b h = ground arith
