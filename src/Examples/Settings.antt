-- ===== src/Examples/Settings.antt =====
-- An example for a file of settings.
use nf_server.Prelude.{◌≡◌, refl, true, some, List, [], ◌∷◌, length}
use nf_server.Prelude.Int.{ℤ, pos}
use nf_server.Config.{Bytes, Sections, get_section, chomp, returned, parser_file}
use nf_server.Config.Tables.{Block, value_of}
use nf_server.Config.Print.{print, IsItem, no_items, one_item, no_blocks, one_block}
use nf_server.Server.{nf_server_create, init, to_size}
use nf_server.Server.Key
use nf_server.Server.Load.{init-parser_file}

abbrev port_item : Bytes × Bytes
port_item = (Key.listen_port, b'8' ∷ b'0' ∷ b'8' ∷ b'0' ∷ [])

port_item-IsItem : IsItem port_item
unfolding chomp
port_item-IsItem = record {
  one_sign = refl;
  key_line = refl;
  value_line = refl;
  unmarked = refl;
  trimmed = refl;
}

abbrev settings : List Block
settings = record { name = b's' ∷ []; items = port_item ∷ [] } ∷ []

-- A stand-in for `atoi`.
abbrev digits : Bytes → ℤ
digits s = pos (length s)

init-parser_file_example :
    (m : Sections) × (parser_file (some (print settings)) ≡ returned true m)
    × ((init digits (get_section (b's' ∷ []) m) nf_server_create).1.port
        ≡ to_size (digits (value_of (b's' ∷ []) Key.listen_port settings)))
    × ((init digits (get_section (b's' ∷ []) m) nf_server_create).1.connect_to
        ≡ to_size (digits (value_of (b's' ∷ []) Key.connect_to settings)))
    × ((init digits (get_section (b's' ∷ []) m) nf_server_create).1.read_to
        ≡ to_size (digits (value_of (b's' ∷ []) Key.read_to settings)))
    × ((init digits (get_section (b's' ∷ []) m) nf_server_create).1.write_to
        ≡ to_size (digits (value_of (b's' ∷ []) Key.write_to settings)))
    × ((init digits (get_section (b's' ∷ []) m) nf_server_create).1.session_to
        ≡ to_size (digits (value_of (b's' ∷ []) Key.session_to settings)))
    × ((init digits (get_section (b's' ∷ []) m) nf_server_create).1.svr_type
        ≡ to_size (digits (value_of (b's' ∷ []) Key.svr_type settings)))
    × ((init digits (get_section (b's' ∷ []) m) nf_server_create).1.max_session
        ≡ to_size (digits (value_of (b's' ∷ []) Key.sock_num settings)))
init-parser_file_example =
    init-parser_file digits settings (b's' ∷ []) nf_server_create
      (one_block refl (one_item port_item-IsItem no_items) no_blocks)
