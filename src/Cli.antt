-- ===== src/Cli.antt =====
-- The command line of desktop/src/main.cpp, as built with `NDEBUG`, which leaves out the `--impair-`
-- options. `argv` is a list of texts without the program's name.
pub mod Ports
use sync_bluetooth_devices.Common.{
  ℕ, ◌+◌, ◌^◌, Bool, true, false, ◌||◌, ◌&&◌, not, List, [], ◌∷◌, ltb, leb, ◌==◌, if◌then◌else◌,
  Option, none, some, Result, ok, err, ◌>>=◌, ◌>>◌, throw_if, Text, text_eq,
}
use sync_bluetooth_devices.Common.Int.{ℤ, pos, negsuc, ◌-ℤ◌, ltb_ℤ}
use sync_bluetooth_devices.Control.{from_chars}

pub data CliError : Type 0 where
  invalid_command_line unknown_mode bad_port bad_output_latency ports_must_differ : CliError
  unknown_option : Text → CliError

pub data Mode : Type 0 where
  local host client control room_client : Mode

pub record CommandLine : Type 0 where
  pub mode : Mode
  pub argument : Text
  pub destination_address : Text
  pub bind_address : Text
  pub audio_port : ℕ
  pub clock_sync_port : ℕ
  pub session_port : ℕ
  pub output_latency_adjustment : ℤ
  pub room_name : Text

abbrev pub host_mode : Text
host_mode = b'h' ∷ b'o' ∷ b's' ∷ b't' ∷ []

abbrev pub client_mode : Text
client_mode = b'c' ∷ b'l' ∷ b'i' ∷ b'e' ∷ b'n' ∷ b't' ∷ []

abbrev pub control_mode : Text
control_mode = b'c' ∷ b'o' ∷ b'n' ∷ b't' ∷ b'r' ∷ b'o' ∷ b'l' ∷ []

abbrev pub room_client_mode : Text
room_client_mode = b'r' ∷ b'o' ∷ b'o' ∷ b'm' ∷ b'-' ∷ b'c' ∷ b'l' ∷ b'i' ∷ b'e' ∷ b'n' ∷ b't' ∷ []

abbrev pub address_option : Text
address_option = b'-' ∷ b'-' ∷ b'a' ∷ b'd' ∷ b'd' ∷ b'r' ∷ b'e' ∷ b's' ∷ b's' ∷ []

abbrev pub bind_option : Text
bind_option = b'-' ∷ b'-' ∷ b'b' ∷ b'i' ∷ b'n' ∷ b'd' ∷ []

abbrev pub port_option : Text
port_option = b'-' ∷ b'-' ∷ b'p' ∷ b'o' ∷ b'r' ∷ b't' ∷ []

abbrev pub control_port_option : Text
control_port_option =
    b'-' ∷ b'-' ∷ b'c' ∷ b'o' ∷ b'n' ∷ b't' ∷ b'r' ∷ b'o' ∷ b'l' ∷ b'-' ∷ b'p' ∷ b'o' ∷ b'r' ∷ b't'
    ∷ []

abbrev pub session_port_option : Text
session_port_option =
    b'-' ∷ b'-' ∷ b's' ∷ b'e' ∷ b's' ∷ b's' ∷ b'i' ∷ b'o' ∷ b'n' ∷ b'-' ∷ b'p' ∷ b'o' ∷ b'r' ∷ b't'
    ∷ []

abbrev pub output_latency_option : Text
output_latency_option =
    b'-' ∷ b'-' ∷ b'o' ∷ b'u' ∷ b't' ∷ b'p' ∷ b'u' ∷ b't' ∷ b'-' ∷ b'l' ∷ b'a' ∷ b't' ∷ b'e' ∷ b'n'
    ∷ b'c' ∷ b'y' ∷ b'-' ∷ b'm' ∷ b's' ∷ []

abbrev pub room_name_option : Text
room_name_option = b'-' ∷ b'-' ∷ b'r' ∷ b'o' ∷ b'o' ∷ b'm' ∷ b'-' ∷ b'n' ∷ b'a' ∷ b'm' ∷ b'e' ∷ []

abbrev pub any_destination : Text
any_destination =
    b'2' ∷ b'5' ∷ b'5' ∷ b'.' ∷ b'2' ∷ b'5' ∷ b'5' ∷ b'.' ∷ b'2' ∷ b'5' ∷ b'5' ∷ b'.' ∷ b'2' ∷ b'5'
    ∷ b'5' ∷ []

abbrev pub any_address : Text
any_address = b'0' ∷ b'.' ∷ b'0' ∷ b'.' ∷ b'0' ∷ b'.' ∷ b'0' ∷ []

abbrev pub default_room_name : Text
default_room_name =
    b'T' ∷ b'a' ∷ b'n' ∷ b'd' ∷ b'e' ∷ b'm' ∷ b' ' ∷ b'A' ∷ b'u' ∷ b'd' ∷ b'i' ∷ b'o' ∷ []

-- `std::from_chars` of a whole text into an unsigned type whose values stay below `limit`.
unfoldable pub from_chars_below : ℕ → Text → Option ℕ
from_chars_below limit text = elim (from_chars text) [
  | none ↦ none
  | some value ↦ if leb limit value then none else some value
]

-- Into an `int`, which may have a minus sign.
unfoldable pub from_chars_int : Text → Option ℤ
from_chars_int [] = none
from_chars_int (c ∷ cs) =
    if c == b'-'
    then elim (from_chars_below (2 ^ 31 + 1) cs) [
      | none ↦ none
      | some value ↦ some (pos 0 -ℤ pos value)
    ]
    else elim (from_chars_below (2 ^ 31) (c ∷ cs)) [ none ↦ none | some value ↦ some (pos value) ]

unfoldable pub check_port : Option ℕ → Result CliError ℕ
check_port none = err bad_port
check_port (some value) = do throw_if (value == 0 || ltb 65535 value) bad_port; ok value

unfoldable pub parse_port : Text → Result CliError ℕ
parse_port text = check_port (from_chars_below (2 ^ 32) text)

unfoldable pub check_output_latency : Option ℤ → Result CliError ℤ
check_output_latency none = err bad_output_latency
check_output_latency (some value) = do
  throw_if (ltb_ℤ value (negsuc 999) || ltb_ℤ (pos 1000) value) bad_output_latency
  ok value

unfoldable pub parse_output_latency : Text → Result CliError ℤ
parse_output_latency text = check_output_latency (from_chars_int text)

-- What `CommandLine{mode, argument}` is.
abbrev pub command_line : Mode → Text → CommandLine
command_line mode argument = record {
  mode = mode;
  argument = argument;
  destination_address = any_destination;
  bind_address = any_address;
  audio_port = 40100;
  clock_sync_port = 40101;
  session_port = 40102;
  output_latency_adjustment = pos 0;
  room_name = default_room_name;
}

unfoldable pub parse_mode : Text → Result CliError Mode
parse_mode mode =
    if text_eq mode host_mode
    then ok host
    else if text_eq mode client_mode
    then ok client
    else if text_eq mode control_mode
    then ok control
    else if text_eq mode room_client_mode
    then ok room_client
    else err unknown_mode

abbrev pub is_host : Mode → Bool
is_host host = true
is_host local = false
is_host client = false
is_host control = false
is_host room_client = false

abbrev pub is_client : Mode → Bool
is_client client = true
is_client local = false
is_client host = false
is_client control = false
is_client room_client = false

-- The modes with a session port.
abbrev pub has_session : Mode → Bool
has_session host = true
has_session control = true
has_session room_client = true
has_session local = false
has_session client = false

-- An option with its value: every one takes one.
unfoldable pub set_option : Text → Text → CommandLine → Result CliError CommandLine
set_option option value c =
    if text_eq option address_option && is_host c.mode
    then ok (record c { destination_address = value })
    else if text_eq option bind_option && is_client c.mode
    then ok (record c { bind_address = value })
    else if text_eq option port_option
    then (parse_port value >>= λ port. ok (record c { audio_port = port }))
    else if text_eq option control_port_option
    then (parse_port value >>= λ port. ok (record c { clock_sync_port = port }))
    else if text_eq option session_port_option && has_session c.mode
    then (parse_port value >>= λ port. ok (record c { session_port = port }))
    else if text_eq option output_latency_option
    then (parse_output_latency value >>= λ latency.
        ok (record c { output_latency_adjustment = latency }))
    else if text_eq option room_name_option && is_host c.mode
    then ok (record c { room_name = value })
    else err (unknown_option option)

unfoldable pub parse_options : List Text → CommandLine → Result CliError CommandLine
parse_options [] c = ok c
parse_options (option ∷ []) c = err (unknown_option option)
parse_options (option ∷ value ∷ rest) c =
    set_option option value c >>= λ next. parse_options rest next

unfoldable pub check_ports : CommandLine → Result CliError CommandLine
check_ports c = do
  throw_if
      (c.audio_port == c.clock_sync_port
        || (is_host c.mode
            && (c.session_port == c.audio_port || c.session_port == c.clock_sync_port)))
      ports_must_differ
  ok c

unfoldable pub parse_command_line : List Text → Result CliError CommandLine
parse_command_line [] = err invalid_command_line
parse_command_line (path ∷ []) = ok (command_line local path)
parse_command_line (mode ∷ argument ∷ options) = do
  parsed ← parse_mode mode
  c ← parse_options options (command_line parsed argument)
  check_ports c
