-- ===== src/Routine/Schedule.antt =====
-- packages/routines/src/schedule.ts. The JavaScript engine's calendar is the parameter `Host`:
-- `Date.parse`, `toISOString`, `Intl.DateTimeFormat` and `Date.UTC` are not part of the repository.
use maxtag.Base.{
  ℕ, zero, suc, ◌+◌, ◌-◌, ◌*◌, Bool, true, false, ◌&&◌, ◌||◌, Text, is_empty, [], ◌∷◌, ◌++◌, Option,
  none, some, leb, ◌==◌, if◌then◌else◌, Result, ok, err, ◌>>=◌,
}
use maxtag.Routine.Types.{
  RoutineSchedule, once, interval, daily, RoutineError, routine_once_at_must_be_iso_timestamp,
  routine_interval_minutes_must_be_between_1_and_43200, routine_daily_time_must_be_hh_mm,
  routine_invalid_time_zone, invalid_time_value,
}

pub record LocalDateTime : Type 0 where
  pub year : ℕ
  pub month : ℕ
  pub day : ℕ
  pub hour : ℕ
  pub minute : ℕ

-- Times are milliseconds since 1970, and none lies before that.
pub record Host : Type 0 where
  -- `new Date(text).getTime()`, none for an invalid date
  pub parse : Text → Option ℕ
  -- `new Date(ms).toISOString()`
  pub iso : ℕ → Text
  -- whether `new Intl.DateTimeFormat('en-US', { timeZone })` accepts the zone
  pub is_time_zone : Text → Bool
  -- the fields that `Intl.DateTimeFormat('en-CA', { timeZone, … })` prints
  pub local_parts : ℕ → Text → LocalDateTime
  -- `Date.UTC(year, month - 1, day, hour, minute)`
  pub utc : LocalDateTime → ℕ
  -- the UTC year, month and day of `new Date(Date.UTC(year, month - 1, day + 1))`
  pub next_date : LocalDateTime → ℕ × ℕ × ℕ

unfoldable pub same_local_date : LocalDateTime → LocalDateTime → Bool
same_local_date left right =
    left.year == right.year && left.month == right.month && left.day == right.day

-- `observed.hour * 60 + observed.minute >= parts.hour * 60 + parts.minute` on the same date
unfoldable pub is_reached : LocalDateTime → LocalDateTime → Bool
unfolding same_local_date
is_reached observed parts =
    same_local_date observed parts
    && leb (parts.hour * 60 + parts.minute) (observed.hour * 60 + observed.minute)

is_digit : ℕ → Bool
is_digit c = leb b'0' c && leb c b'9'

-- The groups of /^([01]\d|2[0-3]):([0-5]\d)$/.
unfoldable pub match_time : Text → Option (Text × Text)
unfolding is_digit
match_time (a ∷ b ∷ c ∷ d ∷ e ∷ []) =
    if ((a == b'0' || a == b'1') && is_digit b || a == b'2' && leb b'0' b && leb b b'3')
      && c == b':'
      && leb b'0' d
      && leb d b'5'
      && is_digit e
    then some (a ∷ b ∷ [], d ∷ e ∷ [])
    else none
match_time _ = none

-- `time.split(':').map(Number)`, of a time that has passed the pattern
clock_parts : Text → ℕ × ℕ
clock_parts (a ∷ b ∷ c ∷ d ∷ e ∷ []) = ((a - b'0') * 10 + (b - b'0'), (d - b'0') * 10 + (e - b'0'))
clock_parts _ = (0, 0)

module _ (host : Host) where
  open host use {parse, iso, is_time_zone, local_parts, utc, next_date}

  -- The four rounds of correction: the instant found, or the one reached without success.
  correct : ℕ → LocalDateTime → Text → ℕ → Bool × ℕ
  correct zero parts zone timestamp = (false, timestamp)
  correct (suc rounds) parts zone timestamp =
      let observed = utc (local_parts timestamp zone) in
      let rest = correct rounds parts zone (timestamp + utc parts - observed) in
      if utc parts == observed then (true, timestamp) else rest

  -- The scan over the minutes of a gap, `left` of them to go.
  scan_gap : ℕ → ℕ → LocalDateTime → Text → ℕ → ℕ
  scan_gap zero minute parts zone timestamp = timestamp
  scan_gap (suc left) minute parts zone timestamp =
      let candidate = timestamp + minute * 60_000 in
      let rest = scan_gap left (minute + 1) parts zone timestamp in
      if is_reached (local_parts candidate zone) parts then candidate else rest

  unfoldable pub zoned_date_time : LocalDateTime → Text → ℕ
  unfolding correct scan_gap is_reached
  zoned_date_time parts zone =
      let (found, timestamp) = correct 4 parts zone (utc parts) in
      if found
      then timestamp
      else if is_reached (local_parts timestamp zone) parts
      then timestamp
      else scan_gap 180 1 parts zone timestamp

  unfoldable pub next_local_day : LocalDateTime → LocalDateTime
  next_local_day parts =
      let (year, month, day) = next_date parts in
      record { year = year; month = month; day = day; hour = parts.hour; minute = parts.minute }

  unfoldable pub normalize_daily : Option (Text × Text) → Text → Result RoutineError RoutineSchedule
  normalize_daily none zone = err routine_daily_time_must_be_hh_mm
  normalize_daily (some (hour, minute)) zone =
      if is_time_zone zone
      then ok (daily (hour ++ b':' ∷ minute) zone)
      else err (routine_invalid_time_zone zone)

  unfoldable pub normalize_schedule : RoutineSchedule → Result RoutineError RoutineSchedule
  unfolding normalize_daily match_time
  normalize_schedule (once at) =
      if is_empty at then err routine_once_at_must_be_iso_timestamp else elim (parse at) [
        | none ↦ err routine_once_at_must_be_iso_timestamp
        | some t ↦ ok (once (iso t))
      ]
  normalize_schedule (interval every_minutes) =
      if leb 1 every_minutes && leb every_minutes 43_200
      then ok (interval every_minutes)
      else err routine_interval_minutes_must_be_between_1_and_43200
  normalize_schedule (daily time zone) = normalize_daily (match_time time) zone

  next_daily : Text → Text → ℕ → ℕ
  unfolding clock_parts zoned_date_time next_local_day
  next_daily time zone after =
      let (hour, minute) = clock_parts time in
      let current = local_parts after zone in
      let desired = record current { hour = hour; minute = minute } in
      let candidate = zoned_date_time desired zone in
      if leb candidate after then zoned_date_time (next_local_day desired) zone else candidate

  unfoldable pub next_of : RoutineSchedule → ℕ → Result RoutineError ℕ
  unfolding next_daily
  next_of (once at) after = elim (parse at) [ none ↦ err invalid_time_value | some t ↦ ok t ]
  next_of (interval every_minutes) after = ok (after + every_minutes * 60_000)
  next_of (daily time zone) after = ok (next_daily time zone after)

  unfoldable pub next_routine_run_at : RoutineSchedule → ℕ → Result RoutineError ℕ
  unfolding next_of normalize_schedule
  next_routine_run_at schedule after = do s ← normalize_schedule schedule; next_of s after
