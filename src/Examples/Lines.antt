-- ===== src/Examples/Lines.antt =====
-- Examples for lineEvent.cpp and asynLog.cpp.
use nf_server.Prelude.{
  ℕ, ◌≡◌, refl, none, some, List, [], ◌∷◌, ◌++◌, arith, take, replicate, length-replicate,
}
use nf_server.Prelude.Int.{pos}
use nf_server.Net.{Got, got, failed, eagain, eintr, Wrote, wrote, refused}
use nf_server.Net.Transfer.{nothing, bytes, interrupted, start, took, stalled}
use nf_server.Buffer.{Buffer, done, out_of_bounds}
use nf_server.Buffer.Inv.{IsValid, unhandled}
use nf_server.SockEvent.{new_event, register_read}
use nf_server.LineEvent.{LineEvent, finished, read_end, read_callback, write_callback}
use nf_server.LineEvent.Write.{IsWritten, write_callback_lem}
use nf_server.LineEvent.Read.{line_ends, lines_done, received, read_callback_lem}
use nf_server.AsynLog.{Log, notice, write_log, stop, push, ended, c_str, str_prefix, format}
use nf_server.AsynLog.Stop.{idle, push-stop}
use nf_server.AsynLog.Lines.{clean, clean→NoZero, format_lem}

-- Eight bytes in a block of 1024, from the second on.
abbrev filled : Buffer
filled = record { cache = some (replicate 1024 65); allo_len = 1024; str_idx = 1; end_next = 9 }

filled-IsValid : IsValid filled
filled-IsValid = record {
  ordered = omega arith;
  filled = omega arith;
  block = omega (arith, length-replicate {A = ℕ} 1024 65);
}

abbrev connection : LineEvent
connection = record {
  sock = (register_read (pos 5) new_event).1;
  read_buffer = filled;
  write_buffer = filled;
  flag = pos 0;
  sent = [];
}

-- Two bytes, an interruption, three more, and EAGAIN.
abbrev writes : List Wrote
writes = wrote 2 ∷ refused eintr ∷ wrote 3 ∷ []

write_callback_lem_example :
    (e' : LineEvent) × (write_callback (writes ++ (refused eagain ∷ [])) connection ≡ finished e')
    × IsWritten connection e' 5 (take 5 (unhandled filled))
write_callback_lem_example =
    write_callback_lem connection writes [] 5 filled-IsValid (took 2 (stalled (took 3 start)))
      (omega arith) (omega arith)

-- A byte and a line feed, with an interruption between.
abbrev reads : List Got
reads = got (66 ∷ []) ∷ failed eintr ∷ got (10 ∷ []) ∷ []

read_callback_lem_example :
    IsValid (received connection (66 ∷ 10 ∷ [])).read_buffer
    × (unhandled (received connection (66 ∷ 10 ∷ [])).read_buffer
        ≡ unhandled filled ++ (66 ∷ 10 ∷ []))
    × (read_callback (λ e. e) none (reads ++ (failed eagain ∷ [])) [] connection
        ≡ read_end [] (
            finished (
              lines_done
                (λ e. e)
                (line_ends 0 (unhandled filled ++ (66 ∷ 10 ∷ [])))
                (received connection (66 ∷ 10 ∷ [])))))
read_callback_lem_example =
    read_callback_lem (λ e. e) none reads [] [] (66 ∷ 10 ∷ []) 1012 connection (λ e. refl)
      filled-IsValid (omega arith) (bytes 66 [] (interrupted (bytes 10 [] nothing))) refl

push-stop_example :
    (write_log (stop (idle 0 [])) ≡ stop (idle 0 []))
    × ((l : Log) × (push (65 ∷ []) (stop (idle 0 [])) ≡ some l)
        × ((write_log l).writer ≡ ended)
        × ((write_log l).file ≡ [])
        × (push (66 ∷ []) (write_log l) ≡ none))
push-stop_example = push-stop (65 ∷ []) (66 ∷ []) 0 []

abbrev time : List ℕ
time = replicate 14 48

abbrev long : List ℕ
long = replicate 1000 65

-- The message is `AB`.
format_lem_example :
    ((line : List ℕ) × (format notice time (65 ∷ 66 ∷ []) ≡ done line)
      × (c_str line ≡ take 9 (str_prefix notice) ++ (time ++ (b' ' ∷ b' ' ∷ [])) ++ (65 ∷ 66 ∷ [])))
    × (format notice time long ≡ out_of_bounds)
unfolding clean
format_lem_example =
    format_lem notice time (65 ∷ 66 ∷ []) long refl (clean→NoZero time refl)
      (clean→NoZero (65 ∷ 66 ∷ []) refl) (omega arith)
      (omega (arith, length-replicate {A = ℕ} 1000 65))
