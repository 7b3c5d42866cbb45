-- ===== src/Transport/Lines.antt =====
-- The JSON lines fit the buffer of `serve_client`.
use pub_sub_crawl.Base.{◌+◌, ◌≤◌, ◌<◌, ◌++◌, arith, length, length-append, Bytes, codes}
use pub_sub_crawl.Base.Int.{ℤ, pos, negsuc}
use pub_sub_crawl.Message.{TelemetryMsg, AlertMsg, alert_code_max}
use pub_sub_crawl.Libc.{print, print_ℤ}
use pub_sub_crawl.Libc.RoundTrip.{length-print}
use pub_sub_crawl.Transport.{format_telemetry, format_alert, line_size, closing}

length-print_ℤ : (v : ℤ) → length (print_ℤ v) ≤ 21
unfolding print_ℤ
length-print_ℤ (pos n) = omega (arith, length-print n)
length-print_ℤ (negsuc n) = omega (arith, length-print (n + 1))

-- A telemetry line is never cut: with its closing NUL it fits the buffer.
pub format_telemetry-fits : (t : TelemetryMsg) → length (format_telemetry t) < line_size
unfolding format_telemetry
format_telemetry-fits t =
    let after_battery : Bytes = codes ", \"rssi_dbm\": " ++ (print_ℤ t.rssi_dbm ++ closing) in
    let after_ts : Bytes = codes ", \"battery_pct\": " ++ (print t.battery_pct ++ after_battery) in
    let after_seq : Bytes = codes ", \"ts\": " ++ (print_ℤ t.ts ++ after_ts) in
    omega (
      arith,
      length-append (print_ℤ t.rssi_dbm) closing,
      length-append (print t.battery_pct) after_battery,
      length-append (print_ℤ t.ts) after_ts,
      length-append (print t.seq) after_seq,
      length-print_ℤ t.rssi_dbm,
      length-print t.battery_pct,
      length-print_ℤ t.ts,
      length-print t.seq,
    )

-- Nor is the line of an alert whose code its array holds.
pub format_alert-fits :
    (a : AlertMsg) → length a.code < alert_code_max → length (format_alert a) < line_size
unfolding format_alert
format_alert-fits a short =
    let after_code : Bytes = codes "\", \"antenna\": " ++ (print a.antenna ++ closing) in
    let after_ts : Bytes = codes ", \"code\": \"" ++ (a.code ++ after_code) in
    let after_seq : Bytes = codes ", \"ts\": " ++ (print_ℤ a.ts ++ after_ts) in
    omega (
      arith,
      short,
      length-append (print a.antenna) closing,
      length-append a.code after_code,
      length-append (print_ℤ a.ts) after_ts,
      length-append (print a.seq) after_seq,
      length-print a.antenna,
      length-print_ℤ a.ts,
      length-print a.seq,
    )

-- The line that serve_client makes of a message fits its buffer with the closing NUL, so that no line is
-- cut, if the code of an alert is shorter than ALERT_CODE_MAX.
pub lines-fit :
    (t : TelemetryMsg) (a : AlertMsg)
    → length a.code < alert_code_max
    → (length (format_telemetry t) < line_size) × (length (format_alert a) < line_size)
lines-fit t a short = (format_telemetry-fits t, format_alert-fits a short)
