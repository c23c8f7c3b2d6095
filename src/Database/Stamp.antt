-- ===== src/Database/Stamp.antt =====
-- src/common/database.cpp: `timePointToString` and `stringToTimePoint`, with `std::put_time` and
-- `std::get_time` for their format. `mktime` takes the fields for local time: `to_utc` is what it makes
-- of the seconds that they are in UTC, and depends on the zone of the process. What a text gives that
-- `get_time` cannot read is `unread`. Years have four digits.
use cli_chat.Base.{
  ◌≡◌, ◌∙◌, ap, ℕ, zero, suc, ◌+◌, ◌-◌, ◌*◌, ◌/◌, ◌%◌, ◌<◌, ◌≤◌, Bool, ◌&&◌, [], ◌∷◌, Option, none,
  some, leb, ◌==◌, if◌then◌else◌, arith,
}
use cli_chat.Text.{Bytes}
use cli_chat.Message.{◌>>=◌}
use cli_chat.Database.Sqlite.{TimeText, c_str}
use cli_chat.Database.Clock.{Tm, IsTime, gmtime, timegm, timegm-gmtime}

-- One digit.
abbrev digit : ℕ → ℕ
digit n = b'0' + n % 10

abbrev two : ℕ → Bytes → Bytes
two n s = digit (n / 10) ∷ digit n ∷ s

abbrev four : ℕ → Bytes → Bytes
four n s = digit (n / 1000) ∷ digit (n / 100) ∷ digit (n / 10) ∷ digit n ∷ s

-- std::put_time(&tm, "%Y-%m-%d %H:%M:%S")
unfoldable pub put_time : Tm → Bytes
put_time tm = four tm.year (
    b'-'
    ∷ two (tm.month + 1)
        (b'-' ∷ two tm.day (b' ' ∷ two tm.hour (b':' ∷ two tm.minute (b':' ∷ two tm.second [])))))

abbrev is_decimal : ℕ → Bool
is_decimal c = leb b'0' c && leb c b'9'

-- At most so many digits, behind a number already read.
read_more : ℕ → ℕ → Bytes → ℕ × Bytes
read_more zero n s = (n, s)
read_more (suc most) n [] = (n, [])
read_more (suc most) n (c ∷ s) =
    let rest = read_more most (n * 10 + (c - b'0')) s in if is_decimal c then rest else (n, c ∷ s)

-- A number of at most so many digits, in a range.
read_number : ℕ → ℕ → ℕ → Bytes → Option (ℕ × Bytes)
unfolding read_more
read_number most low high [] = none
read_number most low high (c ∷ s) =
    let result = read_more most 0 (c ∷ s) in
    if is_decimal c && (leb low result.0 && leb result.0 high) then some result else none

read_char : ℕ → Bytes → Option Bytes
read_char c [] = none
read_char c (a ∷ s) = if a == c then some s else none

-- ss >> std::get_time(&tm, "%Y-%m-%d %H:%M:%S")
unfoldable pub get_time : Bytes → Option Tm
unfolding read_number read_char
get_time s = do
  (year, s) ← read_number 4 0 9999 s
  s ← read_char b'-' s
  (month, s) ← read_number 2 1 12 s
  s ← read_char b'-' s
  (day, s) ← read_number 2 1 31 s
  s ← read_char b' ' s
  (hour, s) ← read_number 2 0 23 s
  s ← read_char b':' s
  (minute, s) ← read_number 2 0 59 s
  s ← read_char b':' s
  (second, s) ← read_number 2 0 60 s
  some (record {
    year = year;
    month = month - 1;
    day = day;
    hour = hour;
    minute = minute;
    second = second;
  })

abbrev pub second_length : ℕ
second_length = 1_000_000_000

-- Database::timePointToString
unfoldable pub time_point_to_string : ℕ → Bytes
unfolding put_time gmtime
time_point_to_string time = put_time (gmtime (time / second_length))

-- Database::stringToTimePoint
unfoldable pub string_to_time_point : (ℕ → ℕ) → (Bytes → ℕ) → Bytes → ℕ
unfolding get_time timegm
string_to_time_point to_utc unread str = elim (get_time str) [
  | none ↦ unread str
  | some tm ↦ to_utc (timegm tm) * second_length
]

read_number-two :
    (n low high : ℕ) (s : Bytes)
    → n < 100
    → low ≤ n
    → n ≤ high
    → read_number 2 low high (two n s) ≡ some (n, s)
unfolding read_number read_more
read_number-two n low high s h l k = ground arith

read_number-four : (n : ℕ) (s : Bytes) → n < 10000 → read_number 4 0 9999 (four n s) ≡ some (n, s)
unfolding read_number read_more
read_number-four n s h = ground arith

get_time-put_time : (tm : Tm) → IsTime tm → tm.year < 10000 → get_time (put_time tm) ≡ some tm
unfolding get_time put_time read_char
get_time-put_time tm t small = rw (read_number-four tm.year _ small) (
    rw
      (read_number-two (tm.month + 1) 1 12 _ (omega (arith, t.month_fits)) (omega arith)
        (omega (arith, t.month_fits)))
      (rw
        (read_number-two tm.day 1 31 _ (omega (arith, t.day_fits)) (omega (arith, t.day_from))
          (omega (arith, t.day_fits)))
        (rw
          (read_number-two tm.hour 0 23 _ (omega (arith, t.hour_fits)) (omega arith)
            (omega (arith, t.hour_fits)))
          (rw
            (read_number-two tm.minute 0 59 _ (omega (arith, t.minute_fits)) (omega arith)
              (omega (arith, t.minute_fits)))
            (rw
              (read_number-two tm.second 0 60 _ (omega (arith, t.second_fits)) (omega arith)
                (omega (arith, t.second_fits)))
              (ap (λ (m : ℕ). some (record tm { month = m })) (omega arith)))))))

c_str-two : (n : ℕ) (s : Bytes) → c_str (two n s) ≡ two n (c_str s)
unfolding c_str
c_str-two n s = ground arith

c_str-four : (n : ℕ) (s : Bytes) → c_str (four n s) ≡ four n (c_str s)
unfolding c_str
c_str-four n s = ground arith

-- The text of a time holds no NUL.
c_str-put_time : (tm : Tm) → c_str (put_time tm) ≡ put_time tm
unfolding put_time c_str
c_str-put_time tm =
    let second = two tm.second [] in
    let minute = two tm.minute (b':' ∷ second) in
    let hour = two tm.hour (b':' ∷ minute) in
    let day = two tm.day (b' ' ∷ hour) in
    let month = two (tm.month + 1) (b'-' ∷ day) in
    c_str-four tm.year (b'-' ∷ month)
    ∙ ap (λ (s : Bytes). four tm.year (b'-' ∷ s))
        (c_str-two (tm.month + 1) (b'-' ∷ day)
          ∙ ap (λ (s : Bytes). two (tm.month + 1) (b'-' ∷ s))
              (c_str-two tm.day (b' ' ∷ hour)
                ∙ ap (λ (s : Bytes). two tm.day (b' ' ∷ s))
                    (c_str-two tm.hour (b':' ∷ minute)
                      ∙ ap (λ (s : Bytes). two tm.hour (b':' ∷ s))
                          (c_str-two tm.minute (b':' ∷ second)
                            ∙ ap (λ (s : Bytes). two tm.minute (b':' ∷ s))
                                (c_str-two tm.second [])))))

-- The two conversions of `Database`, in a zone.
abbrev pub stamps : (ℕ → ℕ) → (Bytes → ℕ) → TimeText
stamps to_utc unread = record {
  time_point_to_string = time_point_to_string;
  string_to_time_point = string_to_time_point to_utc unread;
}

-- A time before the year 10000, written by the database and read again, is what the zone of the
-- process makes of its whole seconds as a local time: in UTC, those seconds.
pub string_to_time_point-time_point_to_string :
    (to_utc : ℕ → ℕ) (unread : Bytes → ℕ) (time : ℕ)
    → (gmtime (time / second_length)).year < 10000
    → string_to_time_point to_utc unread (c_str (time_point_to_string time))
      ≡ to_utc (time / second_length) * second_length
unfolding string_to_time_point time_point_to_string
string_to_time_point-time_point_to_string to_utc unread time small =
    let tm = gmtime (time / second_length) in
    let (fits, same) = timegm-gmtime (time / second_length) in
    rw (c_str-put_time tm) (
      rw (string_to_time_point, get_time-put_time tm fits small)
        (ap (λ (s : ℕ). to_utc s * second_length) same))
