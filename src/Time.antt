-- ===== src/Time.antt =====
-- The times of src/upnp_transport.c: print_upnp_time and parse_upnp_time.
pub mod RoundTrip
use gmrender_resurrect_silan.Base.{
  ℕ, suc, ◌+◌, ◌*◌, ◌/◌, ◌%◌, ◌≡◌, refl, Option, none, some, List, [], ◌∷◌, ◌++◌, Text, codes, ◌==◌,
  if◌then◌else◌,
}
use gmrender_resurrect_silan.Base.Int.{ℤ, pos, negsuc, ◌+ℤ◌}
use gmrender_resurrect_silan.Decimal.{negated, print_int, print_int_02, scan_int, show, digits}

-- divide_leave_remainder: quotient and remainder of `int`, both rounded towards 0.
unfoldable pub divide_leave_remainder : ℤ → ℕ → ℤ × ℤ
divide_leave_remainder (pos n) divisor = (pos (n / divisor), pos (n % divisor))
divide_leave_remainder (negsuc n) divisor = (negated (suc n / divisor), negated (suc n % divisor))

-- print_upnp_time. The 32 bytes of the callers' buffers hold any time.
unfoldable pub print_upnp_time : ℤ → Text
unfolding divide_leave_remainder print_int print_int_02
print_upnp_time t =
    let (hour, t₁) = divide_leave_remainder t 3600 in
    let (minute, t₂) = divide_leave_remainder t₁ 60 in
    let (second, t₃) = divide_leave_remainder t₂ 1 in
    print_int hour ++ (b':' ∷ print_int_02 minute ++ (b':' ∷ print_int_02 second))

-- `value * n` for the hours and the minutes
abbrev pub times : ℤ → ℕ → ℤ
times (pos a) n = pos (a * n)
times (negsuc a) n = negated (suc a * n)

-- The `:02d` fields of the format: a colon, then an integer of at most two bytes. What is not read
-- stays 0, and ends the scan.
unfoldable pub scan_field : Text → Option (ℤ × Text)
unfolding scan_int
scan_field [] = none
scan_field (c ∷ s) = if c == b':' then scan_int (some 2) s else none

abbrev pub total : ℤ → ℤ → ℤ → ℤ
total hour minute second = times hour 3600 +ℤ times minute 60 +ℤ second

unfoldable pub parse_seconds : ℤ → ℤ → Option (ℤ × Text) → ℤ
parse_seconds hour minute none = total hour minute (pos 0)
parse_seconds hour minute (some (second, s)) = total hour minute second

unfoldable pub parse_minutes : ℤ → Option (ℤ × Text) → ℤ
unfolding parse_seconds scan_field
parse_minutes hour none = total hour (pos 0) (pos 0)
parse_minutes hour (some (minute, s)) = parse_seconds hour minute (scan_field s)

unfoldable pub parse_hours : Option (ℤ × Text) → ℤ
unfolding parse_minutes scan_field
parse_hours none = pos 0
parse_hours (some (hour, s)) = parse_minutes hour (scan_field s)

-- parse_upnp_time: `sscanf(time_string, "%d:%02d:%02d", …)` and the sum
unfoldable pub parse_upnp_time : Text → ℤ
unfolding parse_hours scan_int
parse_upnp_time time_string = parse_hours (scan_int none time_string)

printed : print_upnp_time (pos 3725) ≡ codes "1:02:05"
unfolding print_upnp_time
printed = refl

parsed : parse_upnp_time (codes "10:59:07") ≡ pos 39547
unfolding parse_upnp_time ◌+ℤ◌
parsed = refl

parsed_short : parse_upnp_time (codes "1:30") ≡ pos 5400
unfolding parse_upnp_time ◌+ℤ◌
parsed_short = refl
