-- ===== src/Cli/Ports.antt =====
-- The ports and the latency of a command line that desktop/src/main.cpp accepts.
use sync_bluetooth_devices.Common.{
  ℕ, ◌^◌, ◌≤◌, ◌≡◌, ◌≢◌, Bool, true, false, ◌||◌, ◌&&◌, List, [], ◌∷◌, ltb, ◌==◌, if◌then◌else◌,
  Option, none, some, Result, ok, err, ◌>>=◌, throw_if, Text, text_eq, refl, ap, >>=-eq-ok, arith,
}
use sync_bluetooth_devices.Common.Int.{ℤ, pos, negsuc, ltb_ℤ, ◌≤ℤ◌}
use sync_bluetooth_devices.Cli.{
  CliError, bad_port, bad_output_latency, unknown_option, Mode, local, host, CommandLine,
  command_line, check_port, parse_port, check_output_latency, parse_output_latency, parse_mode,
  is_host, is_client, has_session, set_option, parse_options, check_ports, parse_command_line,
  from_chars_below, from_chars_int, address_option, bind_option, port_option, control_port_option,
  session_port_option, output_latency_option, room_name_option,
}

abbrev pub IsPort : ℕ → Type 0
IsPort p = (1 ≤ p) × (p ≤ 65535)

-- The numbers are in range.
pub record InRange (c : CommandLine) : Type 0 where
  pub audio : IsPort c.audio_port
  pub clock : IsPort c.clock_sync_port
  pub session : IsPort c.session_port
  pub latency_low : negsuc 999 ≤ℤ c.output_latency_adjustment
  pub latency_high : c.output_latency_adjustment ≤ℤ pos 1000

abbrev Ranges : Result CliError CommandLine → Type 0
Ranges (err e) = Unit
Ranges (ok c) = InRange c

either :
    (b : Bool) (x y : Result CliError CommandLine)
    → Ranges x
    → Ranges y
    → Ranges (if b then x else y)
either true x y v w = v
either false x y v w = w

command_line-InRange : (mode : Mode) (argument : Text) → InRange (command_line mode argument)
command_line-InRange mode argument = record {
  audio = (omega arith, omega arith);
  clock = (omega arith, omega arith);
  session = (omega arith, omega arith);
  latency_low = omega arith;
  latency_high = omega arith;
}

with_port :
    (o : Option ℕ) (set : ℕ → CommandLine)
    → ((port : ℕ) → IsPort port → InRange (set port))
    → Ranges (check_port o >>= λ port. ok (set port))
unfolding check_port
with_port none set h = tt
with_port (some value) set h = checked (value == 0 || ltb 65535 value) refl
  where
    checked :
        (b : Bool)
        → (value == 0 || ltb 65535 value) ≡ b
        → Ranges ((throw_if b bad_port >>= λ x. ok value) >>= λ port. ok (set port))
    checked true e = tt
    checked false e = h value (ground (arith, e), ground (arith, e))

with_latency :
    (o : Option ℤ) (set : ℤ → CommandLine)
    → ((value : ℤ) → negsuc 999 ≤ℤ value → value ≤ℤ pos 1000 → InRange (set value))
    → Ranges (check_output_latency o >>= λ value. ok (set value))
unfolding check_output_latency
with_latency none set h = tt
with_latency (some value) set h = checked (ltb_ℤ value (negsuc 999) || ltb_ℤ (pos 1000) value) refl
  where
    checked :
        (b : Bool)
        → (ltb_ℤ value (negsuc 999) || ltb_ℤ (pos 1000) value) ≡ b
        → Ranges ((throw_if b bad_output_latency >>= λ x. ok value) >>= λ v. ok (set v))
    checked true e = tt
    checked false e = h value (ground (arith, e)) (ground (arith, e))

set_option-InRange :
    (option value : Text) (c : CommandLine) → InRange c → Ranges (set_option option value c)
unfolding set_option parse_port parse_output_latency
set_option-InRange option value c v =
    let e₇ : Result CliError CommandLine =
      if text_eq option room_name_option && is_host c.mode
      then ok (record c { room_name = value })
      else err (unknown_option option) in
    let latency : Result CliError CommandLine = parse_output_latency value >>= λ latency.
    ok (record c { output_latency_adjustment = latency }) in
    let e₆ : Result CliError CommandLine =
      if text_eq option output_latency_option then latency else e₇ in
    let session : Result CliError CommandLine =
      parse_port value >>= λ port. ok (record c { session_port = port }) in
    let e₅ : Result CliError CommandLine =
      if text_eq option session_port_option && has_session c.mode then session else e₆ in
    let clock : Result CliError CommandLine =
      parse_port value >>= λ port. ok (record c { clock_sync_port = port }) in
    let e₄ : Result CliError CommandLine =
      if text_eq option control_port_option then clock else e₅ in
    let audio : Result CliError CommandLine =
      parse_port value >>= λ port. ok (record c { audio_port = port }) in
    let e₃ : Result CliError CommandLine = if text_eq option port_option then audio else e₄ in
    let bound : Result CliError CommandLine = ok (record c { bind_address = value }) in
    let e₂ : Result CliError CommandLine =
      if text_eq option bind_option && is_client c.mode then bound else e₃ in
    let sent : Result CliError CommandLine = ok (record c { destination_address = value }) in
    let v₆ =
      either (text_eq option output_latency_option) latency e₇
        (with_latency (from_chars_int value) (λ x. record c { output_latency_adjustment = x })
          (λ x low high. record {
            audio = v.audio;
            clock = v.clock;
            session = v.session;
            latency_low = low;
            latency_high = high;
          }))
        (either (text_eq option room_name_option && is_host c.mode)
          (ok (record c { room_name = value })) (err (unknown_option option))
          (record {
            audio = v.audio;
            clock = v.clock;
            session = v.session;
            latency_low = v.latency_low;
            latency_high = v.latency_high;
          })
          tt) in
    let v₅ =
      either (text_eq option session_port_option && has_session c.mode) session e₆
        (with_port (from_chars_below (2 ^ 32) value) (λ x. record c { session_port = x })
          (λ x h. record {
            audio = v.audio;
            clock = v.clock;
            session = h;
            latency_low = v.latency_low;
            latency_high = v.latency_high;
          }))
        v₆ in
    let v₄ =
      either (text_eq option control_port_option) clock e₅
        (with_port (from_chars_below (2 ^ 32) value) (λ x. record c { clock_sync_port = x })
          (λ x h. record {
            audio = v.audio;
            clock = h;
            session = v.session;
            latency_low = v.latency_low;
            latency_high = v.latency_high;
          }))
        v₅ in
    let v₃ =
      either (text_eq option port_option) audio e₄
        (with_port (from_chars_below (2 ^ 32) value) (λ x. record c { audio_port = x })
          (λ x h. record {
            audio = h;
            clock = v.clock;
            session = v.session;
            latency_low = v.latency_low;
            latency_high = v.latency_high;
          }))
        v₄ in
    let v₂ =
      either (text_eq option bind_option && is_client c.mode) bound e₃
        (record {
          audio = v.audio;
          clock = v.clock;
          session = v.session;
          latency_low = v.latency_low;
          latency_high = v.latency_high;
        })
        v₃ in
    either (text_eq option address_option && is_host c.mode) sent e₂
      (record {
        audio = v.audio;
        clock = v.clock;
        session = v.session;
        latency_low = v.latency_low;
        latency_high = v.latency_high;
      })
      v₂

then_Ranges :
    (x : Result CliError CommandLine) (next : CommandLine → Result CliError CommandLine)
    → Ranges x
    → ((c : CommandLine) → InRange c → Ranges (next c))
    → Ranges (x >>= next)
then_Ranges (err e) next v go = tt
then_Ranges (ok c) next v go = go c v

parse_options-InRange :
    (options : List Text) (c : CommandLine) → InRange c → Ranges (parse_options options c)
unfolding parse_options
parse_options-InRange [] c v = v
parse_options-InRange (option ∷ []) c v = tt
parse_options-InRange (option ∷ value ∷ rest) c v =
    then_Ranges (set_option option value c) (parse_options rest)
      (set_option-InRange option value c v) (λ next w. parse_options-InRange rest next w)

-- The ports that must differ.
pub record AreDistinct (c : CommandLine) : Type 0 where
  pub audio_clock : c.audio_port ≢ c.clock_sync_port
  pub session_audio : c.mode ≡ host → c.session_port ≢ c.audio_port
  pub session_clock : c.mode ≡ host → c.session_port ≢ c.clock_sync_port

check_ports-AreDistinct : (c d : CommandLine) → check_ports c ≡ ok d → (d ≡ c) × AreDistinct c
unfolding check_ports
check_ports-AreDistinct c d e = by same_ports refl
  where
    same_ports : Bool
    same_ports =
        c.audio_port == c.clock_sync_port
        || (is_host c.mode
            && (c.session_port == c.audio_port || c.session_port == c.clock_sync_port))

    by : (b : Bool) → same_ports ≡ b → (d ≡ c) × AreDistinct c
    by true h = let refused = rw h at e in absurd (cc refused)
    by false h = (
      (let passed = rw h at e in cc passed),
      record {
        audio_clock = λ same. ground (arith, h, same);
        session_audio = λ hosts same.
            (let hosting : is_host c.mode ≡ true = ap is_host hosts in
              ground (arith, h, same, hosting));
        session_clock = λ hosts same.
            (let hosting : is_host c.mode ≡ true = ap is_host hosts in
              ground (arith, h, same, hosting));
      },
    )

defaults-AreDistinct : (mode : Mode) (argument : Text) → AreDistinct (command_line mode argument)
defaults-AreDistinct mode argument = record {
  audio_clock = λ same. absurd (omega (arith, same));
  session_audio = λ hosts same. absurd (omega (arith, same));
  session_clock = λ hosts same. absurd (omega (arith, same));
}

-- A command line that is accepted has ports from 1 to 65535 and a latency from -1000 to 1000 ms; its audio
-- and clock ports differ, and in host mode the session port differs from both.
pub parse_command_line_bounds :
    (args : List Text) (c : CommandLine)
    → parse_command_line args ≡ ok c
    → InRange c × AreDistinct c
unfolding parse_command_line
parse_command_line_bounds [] c e = cc e
parse_command_line_bounds (path ∷ []) c e =
    let same : command_line local path ≡ c = cc e in
    rw (← same) (command_line-InRange local path, defaults-AreDistinct local path)
parse_command_line_bounds (mode ∷ argument ∷ options) c e =
    let a = >>=-eq-ok (parse_mode mode) _ e in
    let b = >>=-eq-ok (parse_options options (command_line a.0 argument)) _ a.2 in
    let v : Ranges (ok b.0) = rw (b.1) at (
      parse_options-InRange options (command_line a.0 argument)
        (command_line-InRange a.0 argument)) in
    let checked = check_ports-AreDistinct b.0 c b.2 in rw (checked.0) (v, checked.1)
