-- ===== src/Runs/Lines.antt =====
-- A host on other ports.
use sync_bluetooth_devices.Common.{◌≡◌, refl, [], ◌∷◌, List, ok, Text, text_eq}
use sync_bluetooth_devices.Control.{from_chars, digits}
use sync_bluetooth_devices.Cli.{
  CommandLine, command_line, host, parse_command_line, parse_mode, parse_options, set_option,
  parse_port, check_port, from_chars_below, check_ports, host_mode, port_option, room_name_option,
}
use sync_bluetooth_devices.Cli.Ports.{InRange, AreDistinct, parse_command_line_bounds}

abbrev args : List Text
args =
    host_mode
    ∷ (b'a' ∷ [])
    ∷ port_option
    ∷ (b'5' ∷ b'0' ∷ b'0' ∷ b'0' ∷ [])
    ∷ room_name_option
    ∷ (b'R' ∷ [])
    ∷ []

abbrev parsed : CommandLine
parsed = record (command_line host (b'a' ∷ [])) { audio_port = 5000; room_name = b'R' ∷ [] }

parses : parse_command_line args ≡ ok parsed
unfolding parse_command_line parse_mode parse_options set_option parse_port check_port
    from_chars_below check_ports from_chars digits text_eq
parses = refl

parse_command_line_bounds_example : InRange parsed × AreDistinct parsed
parse_command_line_bounds_example = parse_command_line_bounds args parsed parses
