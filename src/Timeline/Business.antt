-- ===== src/Timeline/Business.antt =====
-- Business hours (internal/model/activity.go) and the walk over the days of a range
-- (internal/timeaccounting/timeaccounting.go, BusinessSecondsBetween). What time.LoadLocation
-- finds in the zone database is the argument `locations`.
use Prim.Native.Char.{code}
use kanban_store.Prelude.{
  ℕ, zero, suc, ◌+◌, ◌-◌, ◌*◌, String, Bool, true, false, ◌&&◌, ◌||◌, not, List, [], ◌∷◌, Option,
  none, some, ltb, leb, ◌==◌, if◌then◌else◌, is_some,
}
use kanban_store.Prelude.Text.{contains, split_on, trim_space, is_digit}
use kanban_store.Timeline.Events.{Time}

-- A time zone as the walk uses it, on instants.
pub record Zone : Type 0 where
  -- time.Date(y, m, d, 0, 0, 0, 0, loc) of the instant's local date
  pub midnight : Time → Time
  -- cursor.AddDate(0, 0, 1)
  pub next_day : Time → Time
  -- cursor.Weekday(), from 0 for Sunday
  pub weekday : Time → ℕ
  -- cursor.Format(HolidayDateLayout)
  pub date : Time → String

pub record BusinessHours : Type 0 where
  pub tzid : String
  pub days : List String
  pub start : String
  pub stop : String
  pub holidays : List String

unfoldable pub digits_value : ℕ → String → Option ℕ
digits_value acc String.[] = some acc
digits_value acc (String.◌∷◌ c s) =
    let rest = digits_value (acc * 10 + (code c - b'0')) s in
    if is_digit (code c) then rest else none

-- The digits of an integer without its sign: at least one.
unfoldable pub unsigned_value : String → Option ℕ
unfolding digits_value
unsigned_value String.[] = none
unsigned_value (String.◌∷◌ c s) = digits_value 0 (String.◌∷◌ c s)

-- `strconv.Atoi`, then the test that the number lies between 0 and `limit`; "-0" is 0.
unfoldable pub atoi : String → Option ℕ
unfolding unsigned_value
atoi String.[] = none
atoi (String.◌∷◌ c s) =
    if code c == b'+'
    then unsigned_value s
    else if code c == b'-'
    then negated (unsigned_value s)
    else unsigned_value (String.◌∷◌ c s)
  where
    negated : Option ℕ → Option ℕ
    negated none = none
    negated (some zero) = some zero
    negated (some (suc n)) = none

unfoldable pub up_to : ℕ → Option ℕ → Option ℕ
up_to limit none = none
up_to limit (some n) = if leb n limit then some n else none

unfoldable pub minutes_of_parts : Option ℕ → Option ℕ → Option ℕ
minutes_of_parts (some h) (some m) = some (h * 60 + m)
minutes_of_parts (some h) none = none
minutes_of_parts none m = none

-- ParseClockTime: minutes past midnight.
unfoldable pub parse_clock_time : String → Option ℕ
unfolding up_to atoi minutes_of_parts split_on
parse_clock_time v = elim (split_on b':' v) [
  | h ∷ m ∷ [] ↦ minutes_of_parts (up_to 23 (atoi h)) (up_to 59 (atoi m))
  | _ ↦ none
]

codes : String → List ℕ
codes String.[] = []
codes (String.◌∷◌ c s) = code c ∷ codes s

-- `unicode.ToUpper`, for the characters whose upper case is one of A to Z.
abbrev upper_code : ℕ → ℕ
upper_code c =
    if leb b'a' c && leb c b'z'
    then c - 32
    else if c == 0x131
    then b'I'
    else if c == 0x17f
    then b'S'
    else c

weekday_of_codes : List ℕ → Option ℕ
weekday_of_codes (a ∷ b ∷ []) =
    let x = upper_code a in
    let y = upper_code b in
    if x == b'S' && y == b'U'
    then some 0
    else if x == b'M' && y == b'O'
    then some 1
    else if x == b'T' && y == b'U'
    then some 2
    else if x == b'W' && y == b'E'
    then some 3
    else if x == b'T' && y == b'H'
    then some 4
    else if x == b'F' && y == b'R'
    then some 5
    else if x == b'S' && y == b'A'
    then some 6
    else none
weekday_of_codes [] = none
weekday_of_codes (a ∷ []) = none
weekday_of_codes (a ∷ b ∷ c ∷ rest) = none

-- `weekdayByCode[strings.ToUpper(strings.TrimSpace(d))]`
unfoldable pub weekday_of : String → Option ℕ
unfolding weekday_of_codes codes trim_space
weekday_of d = weekday_of_codes (codes (trim_space d))

-- `_, working := days[w]` of WeekdaySet.
unfoldable pub works_on : List String → ℕ → Bool
unfolding weekday_of
works_on [] w = false
works_on (d ∷ ds) w = elim (weekday_of d) [ none ↦ false | some v ↦ v == w ] || works_on ds w

-- `len(days) == 0` of WeekdaySet.
unfoldable pub no_days : List String → Bool
unfolding weekday_of
no_days [] = true
no_days (d ∷ ds) = not (is_some (weekday_of d)) && no_days ds

abbrev pub minute : ℕ
minute = 60 * 1000000000

-- What part of [from, to) lies in the window of the day that starts at `cursor`.
unfoldable pub window_part : ℕ → ℕ → Time → Time → Time → ℕ
window_part start_minutes end_minutes from to cursor =
    let window_start = cursor + start_minutes * minute in
    let window_end = cursor + end_minutes * minute in
    let lower = if ltb window_start from then from else window_start in
    let upper = if ltb to window_end then to else window_end in
    if ltb lower upper then upper - lower else 0

module _ (zone : Zone) (hours : BusinessHours) (start_minutes end_minutes : ℕ) where
  unfoldable pub working_day : Time → Bool
  working_day cursor =
      works_on hours.days (zone.weekday cursor) && not (contains hours.holidays (zone.date cursor))

  -- The `for cursor.Before(to)` loop, on fuel.
  unfoldable pub day_walk : ℕ → Time → Time → Time → ℕ → ℕ
  day_walk zero from to cursor total = total
  day_walk (suc fuel) from to cursor total =
      let rest = day_walk fuel from to (zone.next_day cursor) (
        if working_day cursor
        then total + window_part start_minutes end_minutes from to cursor
        else total) in
      if ltb cursor to then rest else total

-- BusinessSecondsBetween, in nanoseconds. Every round moves the cursor on, so that the distance to
-- `to` is fuel enough.
unfoldable pub business_between : (String → Option Zone) → Time → Time → BusinessHours → ℕ
business_between locations from to hours =
    if not (ltb from to) then 0 else elim (locations hours.tzid) [
      | none ↦ 0
      | some zone ↦ elim (parse_clock_time hours.start) [
        | none ↦ 0
        | some start_minutes ↦ elim (parse_clock_time hours.stop) [
          | none ↦ 0
          | some end_minutes ↦
              let walked =
                day_walk zone hours start_minutes end_minutes (to - zone.midnight from) from to
                  (zone.midnight from) 0 in
              if no_days hours.days then 0 else walked
        ]
      ]
    ]
