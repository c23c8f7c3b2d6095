-- ===== src/Config/Tests.antt =====
-- The environment over the members of config.hpp, at one example.
mod Numbers
use cli_chat.Base.{
  ap, arith, ◌≡◌, refl, ℕ, ◌+◌, ◌-◌, ◌*◌, [], ◌∷◌, ◌&&◌, Option, none, some, leb, if◌then◌else◌,
}
use cli_chat.Text.{find, starts_with, split, split_piece, Bytes, codes, equal}
use cli_chat.Config.{negsuc, load_from_file, set_lines, set_line, set, ℤ, pos, defaults}
use cli_chat.Secrets.{new_secrets_manager, trim_right, trim_left, entry, trim}
use cli_chat.Config.Tests.Numbers.{print, read, read-print, print-IsPlain}
use cli_chat.Config.RoundTrip.{IsPlain, IsWritable, config_lines, load_from_file-config_lines}
use cli_chat.Secrets.RoundTrip.{unlines}

abbrev two_variables : Bytes → Option Bytes
two_variables name =
    if equal name (codes "CHAT_SERVER_PORT")
    then some (codes "5001")
    else if equal name (codes "CHAT_TLS_ENABLED")
    then some (codes "yes")
    else none

abbrev port_file : Bytes → Option Bytes
port_file filename = some (codes "# server\nserver_port = 5001\n")

port_loaded :
    load_from_file read port_file (codes "server.conf") (defaults, new_secrets_manager)
    ≡ some (
      record defaults { server_port = record { value = pos 5001; fits = refl } },
      new_secrets_manager,
    )
unfolding load_from_file set_lines set_line set entry trim trim_left trim_right find starts_with
    split split_piece equal
port_loaded = refl

abbrev written : Bytes → Option Bytes
written name = some (unlines (config_lines print defaults))

defaults-IsWritable : IsWritable defaults
unfolding trim trim_left trim_right
defaults-IsWritable =
    ((refl, refl), (refl, refl), (refl, refl), (refl, refl), (refl, refl), (refl, refl))

load_from_file-config_lines_example :
    load_from_file read written (codes "server.conf") (defaults, new_secrets_manager)
    ≡ some (defaults, new_secrets_manager)
load_from_file-config_lines_example =
    load_from_file-config_lines read print read-print print-IsPlain written (codes "server.conf")
      defaults defaults new_secrets_manager refl defaults-IsWritable
