-- ===== src/Calendar/Alarm.antt =====
-- src/kernel/rtc.c and src/kernel/time.c: the clock of the machine, whose registers hold two decimal
-- digits. What is read from them is a parameter.
use light_os.Base.{ℕ, ◌+◌, ◌*◌, ◌/◌, ◌%◌, ◌<◌, ◌≡◌, leb, if◌then◌else◌, arith}
use light_os.Calendar.{Tm, get_yday}
use light_os.Stdlib.{bcd_to_bin, bin_to_bcd}

-- `time_read`, from what `time_read_bcd` has read
unfoldable pub time_read : Tm → Tm
time_read tm =
    let tm' : Tm = record {
      sec = bcd_to_bin tm.sec;
      min = bcd_to_bin tm.min;
      hour = bcd_to_bin tm.hour;
      mday = bcd_to_bin tm.mday;
      mon = bcd_to_bin tm.mon;
      year = bcd_to_bin tm.year;
      wday = bcd_to_bin tm.wday;
      yday = 0;
    } in
    record tm' { yday = get_yday tm' }

-- One place of the time: the new value, and 1 to carry to the next place.
abbrev pub carry : (limit value : ℕ) → ℕ × ℕ
carry limit value = if leb limit value then (value % limit, 1) else (value, 0)

-- The time of day at which `set_alarm` wants the interrupt: hour, minute and second.
unfoldable pub alarm_time : (secs : ℕ) → Tm → ℕ × ℕ × ℕ
alarm_time secs tm =
    let s = carry 60 (tm.sec + secs % 60) in
    let m = carry 60 (tm.min + s.1 + secs / 60 % 60) in
    let h = carry 24 (tm.hour + m.1 + secs / 60 / 60) in (h.0, m.0, s.0)

-- What `set_alarm` writes to the registers.
unfoldable pub set_alarm : (secs : ℕ) → Tm → ℕ × ℕ × ℕ
set_alarm secs tm = let t = alarm_time secs tm in (bin_to_bcd t.0, bin_to_bcd t.1, bin_to_bcd t.2)

-- The alarm of `set_alarm` is set to the time of day `secs` seconds later, within the ranges of the
-- clock.
alarm_time_lem :
    (secs : ℕ) (tm : Tm)
    → tm.sec < 60
    → tm.min < 60
    → tm.hour < 24
    → ((alarm_time secs tm).0 < 24)
      × ((alarm_time secs tm).1 < 60)
      × ((alarm_time secs tm).2 < 60)
      × ((alarm_time secs tm).0 * 3600 + (alarm_time secs tm).1 * 60 + (alarm_time secs tm).2
          ≡ (tm.hour * 3600 + tm.min * 60 + tm.sec + secs) % 86400)
unfolding alarm_time
alarm_time_lem secs tm s m h = (ground arith, ground arith, ground arith, ground arith)
