-- ===== src/View/Timeline/Weeks.antt =====
-- internal/view/timeline.go: the ticks of a segment are its Mondays.
use agentboard.Prelude.{
  ℕ, zero, suc, ◌+◌, ◌%◌, ◌≤◌, ◌≡◌, refl, sym, ◌∙◌, inl, inr, Bool, true, false, List, ◌&&◌, ◌||◌,
  ◌∷◌, arith, ltb, leb, ◌==◌, if◌then◌else◌, Bool-cases, any,
}
use agentboard.Prelude.Int.{pos}
use agentboard.Model.Date
use agentboard.Model.Date.{Date}
use agentboard.Model.Calendar.{day_number}
use agentboard.Model.Calendar.Order.{IsDate, before_iff, equal_day}
use agentboard.Model.Calendar.Shift.{add_days, day_number-add_days, add_days-IsDate}
use agentboard.View.Timeline.{weekday, week_start, ticks_from, week_ticks}
use agentboard.View.Timeline.Months.{day_number-week_start, week_start-IsDate}

-- Whether a day is a Monday from `w` on, within the segment.
abbrev is_tick : ℕ → ℕ → ℕ → ℕ → Bool
is_tick w s e d = leb w d && ltb s d && ltb d e && ((d + 1) % 7 == 1)

no_tick : (w s e d : ℕ) → ltb w e ≡ false → is_tick w s e d ≡ false
no_tick w s e d h = ground arith

next_tick :
    (w s e d : ℕ)
    → w % 7 ≡ 0
    → ltb w e ≡ true
    → ((ltb s w && (d == w)) || is_tick (w + 7) s e d) ≡ is_tick w s e d
next_tick w s e d m h = ground arith

any-tick :
    (t : Bool) (d w : Date) (rest : List Date)
    → any (Date.equal d) (if t then w ∷ rest else rest)
      ≡ ((t && Date.equal d w) || any (Date.equal d) rest)
any-tick true d w rest = refl
any-tick false d w rest = refl

any-ticks_from :
    (fuel : ℕ) (s e w d : Date)
    → IsDate s
    → IsDate e
    → IsDate w
    → IsDate d
    → day_number w % 7 ≡ 0
    → day_number e ≤ fuel + day_number w
    → any (Date.equal d) (ticks_from fuel s e w)
      ≡ is_tick (day_number w) (day_number s) (day_number e) (day_number d)
unfolding ticks_from
any-ticks_from zero s e w d vs ve vw vd m enough =
    sym (no_tick (day_number w) (day_number s) (day_number e) (day_number d) (ground arith))
any-ticks_from (suc fuel) s e w d vs ve vw vd m enough =
    let later = day_number-add_days (pos 7) w in
    let next : day_number (add_days (pos 7) w) ≡ day_number w + 7 = omega (arith, later) in
    let h =
      any-ticks_from fuel s e (add_days (pos 7) w) d vs ve (add_days-IsDate (pos 7) w) vd
        (omega (arith, next)) (omega (arith, next)) in
    elim (Bool-cases (ltb (day_number w) (day_number e))) [
      | inr done ↦
          rw (before_iff w e vw ve, done)
            (sym (no_tick (day_number w) (day_number s) (day_number e) (day_number d) done))
      | inl more ↦
          let step = next_tick (day_number w) (day_number s) (day_number e) (day_number d) m more in
          rw (before_iff w e vw ve, more)
            (any-tick (Date.before s w) d w (ticks_from fuel s e (add_days (pos 7) w))
              ∙ rw (before_iff s w vs vw, equal_day d w vd vw, h, next) step)
    ]

-- The ticks of a segment are the Mondays after its start and before its end.
pub week_ticks_lem :
    (start end d : Date)
    → IsDate start
    → IsDate end
    → IsDate d
    → any (Date.equal d) (week_ticks start end)
      ≡ (Date.before start d && Date.before d end && (weekday d == 1))
unfolding week_ticks weekday
week_ticks_lem start end d vs ve vd =
    let m = day_number-week_start start in
    any-ticks_from (day_number end) start end (week_start start) d vs ve (week_start-IsDate start)
      vd (omega arith) (omega arith)
    ∙ rw (before_iff start d vs vd, before_iff d end vd ve)
        (from_monday (day_number (week_start start)) (day_number start) (day_number end)
          (day_number d) (omega arith))
  where
    from_monday :
        (w s e d : ℕ) → w ≤ s → is_tick w s e d ≡ (ltb s d && ltb d e && ((d + 1) % 7 == 1))
    from_monday w s e d h = ground arith
