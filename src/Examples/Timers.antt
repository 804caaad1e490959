-- ===== src/Examples/Timers.antt =====
-- Examples for timer.cpp and configParser.cpp.
use nf_server.Prelude.{ℕ, ◌≡◌, refl, true, some, List, [], ◌∷◌}
use nf_server.Prelude.Int.{pos}
use nf_server.Timer.{
  Entry, Timeval, to_int, get_time_msec, add_timer_ms, del_timer_ms, expire_timer_ms,
}
use nf_server.Timer.Order.{IsOrdered, del_timer_ms-add_timer_ms}
use nf_server.Timer.Due.{calls_of, left, expire_timer_ms_lem}
use nf_server.Config.{Sections, get, chomp, parser_file, returned}
use nf_server.Config.Tables.{Block, value_of}
use nf_server.Config.Print.{
  print, IsItem, no_items, one_item, no_blocks, one_block, parser_file-print,
}

-- Half a second past 1.
abbrev now : Timeval
now = record { tv_sec = 1; tv_usec = 500000 }

-- One entry is due, one is not.
abbrev two_entries : List Entry
two_entries =
    record { due = pos 1200; proc = 7; param = 1 }
    ∷ record { due = pos 1900; proc = 7; param = 2 }
    ∷ []

del_timer_ms-add_timer_ms_example :
    IsOrdered (add_timer_ms now (pos 100) 7 3 two_entries).1
    × (del_timer_ms
          (add_timer_ms now (pos 100) 7 3 two_entries).0
          3
          (add_timer_ms now (pos 100) 7 3 two_entries).1
        ≡ two_entries)
unfolding add_timer_ms
del_timer_ms-add_timer_ms_example =
    del_timer_ms-add_timer_ms now (pos 100) 7 3 two_entries (refl, (tt, tt)) (refl, (refl, tt))

expire_timer_ms_lem_example : expire_timer_ms now two_entries ≡ (
  calls_of (to_int (get_time_msec now)) two_entries,
  left (to_int (get_time_msec now)) two_entries,
)
expire_timer_ms_lem_example = expire_timer_ms_lem now two_entries (refl, (tt, tt))

-- port=80
abbrev an_item : List ℕ × List ℕ
an_item = (b'p' ∷ b'o' ∷ b'r' ∷ b't' ∷ [], b'8' ∷ b'0' ∷ [])

an_item-IsItem : IsItem an_item
unfolding chomp
an_item-IsItem = record {
  one_sign = refl;
  key_line = refl;
  value_line = refl;
  unmarked = refl;
  trimmed = refl;
}

abbrev a_block : Block
a_block = record { name = b's' ∷ []; items = an_item ∷ [] }

parser_file-print_example :
    (m : Sections) × (parser_file (some (print (a_block ∷ []))) ≡ returned true m)
    × (get (b's' ∷ []) (b'p' ∷ b'o' ∷ b'r' ∷ b't' ∷ []) m
        ≡ value_of (b's' ∷ []) (b'p' ∷ b'o' ∷ b'r' ∷ b't' ∷ []) (a_block ∷ []))
parser_file-print_example =
    parser_file-print (a_block ∷ []) (b's' ∷ []) (b'p' ∷ b'o' ∷ b'r' ∷ b't' ∷ [])
      (one_block refl (one_item an_item-IsItem no_items) no_blocks)
