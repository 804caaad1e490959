-- ===== src/Server/Key.antt =====
-- The keys that `NfSvr::init` looks up.
use nf_server.Prelude.{[], ◌∷◌}
use nf_server.Config.{Bytes}

abbrev pub listen_port : Bytes
listen_port = b'l' ∷ b'i' ∷ b's' ∷ b't' ∷ b'e' ∷ b'n' ∷ b'P' ∷ b'o' ∷ b'r' ∷ b't' ∷ []

abbrev pub connect_to : Bytes
connect_to = b'c' ∷ b'o' ∷ b'n' ∷ b'n' ∷ b'e' ∷ b'c' ∷ b't' ∷ b'T' ∷ b'o' ∷ []

abbrev pub read_to : Bytes
read_to = b'r' ∷ b'e' ∷ b'a' ∷ b'd' ∷ b'T' ∷ b'o' ∷ []

abbrev pub write_to : Bytes
write_to = b'w' ∷ b'r' ∷ b'i' ∷ b't' ∷ b'e' ∷ b'T' ∷ b'o' ∷ []

abbrev pub session_to : Bytes
session_to = b's' ∷ b'e' ∷ b's' ∷ b's' ∷ b'i' ∷ b'o' ∷ b'n' ∷ b'T' ∷ b'o' ∷ []

abbrev pub svr_type : Bytes
svr_type = b't' ∷ b'y' ∷ b'p' ∷ b'e' ∷ []

abbrev pub sock_num : Bytes
sock_num = b's' ∷ b'o' ∷ b'c' ∷ b'k' ∷ b'N' ∷ b'u' ∷ b'm' ∷ []
