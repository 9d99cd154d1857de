-- ===== src/Time/RoundTrip.antt =====
-- parse_upnp_time of src/upnp_transport.c on what print_upnp_time wrote.
use gmrender_resurrect_silan.Base.{
  ℕ, ◌+◌, ◌*◌, ◌/◌, ◌%◌, ◌<◌, ◌≡◌, refl, sym, ap, ◌∙◌, append-nil, some, [], ◌∷◌, ◌++◌, Text, arith,
}
use gmrender_resurrect_silan.Base.Int.{pos, ◌+ℤ◌}
use gmrender_resurrect_silan.Decimal.{print_int, print_int_02}
use gmrender_resurrect_silan.Decimal.RoundTrip.{scan_int-print_int, print_int_02-two, scan_int-two}
use gmrender_resurrect_silan.Time.{
  print_upnp_time, scan_field, parse_seconds, parse_minutes, parse_hours, parse_upnp_time,
}

-- A field of the format, read from a colon and what `%02d` wrote.
scan_field-print_int_02 :
    (n : ℕ) (s : Text) → n < 100 → scan_field (b':' ∷ print_int_02 (pos n) ++ s) ≡ some (pos n, s)
unfolding scan_field
scan_field-print_int_02 n s h =
    let back : n / 10 * 10 + n % 10 ≡ n = omega arith in
    rw (print_int_02-two n h) (
      scan_int-two (n / 10) (n % 10) s (omega arith) (omega arith) ∙ ap (λ k. some (pos k, s)) back)

-- Hours, minutes and seconds, as print_upnp_time lays them out, are read back.
parse_fields :
    (hour minute second : ℕ)
    → minute < 100
    → second < 100
    → parse_upnp_time (
        print_int (pos hour)
        ++ (b':' ∷ print_int_02 (pos minute) ++ (b':' ∷ print_int_02 (pos second))))
      ≡ pos (hour * 3600 + minute * 60 + second)
unfolding parse_upnp_time parse_hours parse_minutes parse_seconds ◌+ℤ◌
parse_fields hour minute second p q =
    let rest = b':' ∷ print_int_02 (pos second) in
    let last : scan_field rest ≡ some (pos second, []) =
      ap scan_field (sym (append-nil rest)) ∙ scan_field-print_int_02 second [] q in
    rw
      (
        scan_int-print_int hour (b':' ∷ print_int_02 (pos minute) ++ rest) refl,
        scan_field-print_int_02 minute rest p,
        last,
      )
      (ground arith)

-- For every time from 0 on, parse_upnp_time gives back the seconds that print_upnp_time was given.
pub parse-print_upnp_time : (t : ℕ) → parse_upnp_time (print_upnp_time (pos t)) ≡ pos t
unfolding print_upnp_time
parse-print_upnp_time t =
    parse_fields (t / 3600) (t % 3600 / 60) (t % 3600 % 60 / 1) (omega arith) (omega arith)
    ∙ ap pos (omega arith)
