-- ===== src/LineEvent/Write.antt =====
-- `write_callback`: what `sendn` took, what is left in the buffer and what the event waits for next.
use nf_server.Prelude.{
  ℕ, zero, suc, ◌+◌, ◌≤◌, ◌<◌, ◌≡◌, refl, sym, ap, ◌∙◌, inl, inr, some, List, [], ◌∷◌, ◌++◌, arith,
  Bool-cases, ltb, if◌then◌else◌, length, take, take-length, drop, length-drop,
}
use nf_server.Prelude.Int.{pos, ltb_ℤ}
use nf_server.Net.{eagain, Wrote, refused}
use nf_server.Net.Transfer.{sendn, sendn_full, sendn_short, IsTaken}
use nf_server.Buffer.{Buffer, get_unhandle_num, add_handl_num}
use nf_server.Buffer.Inv.{IsValid, unhandled, length-unhandled}
use nf_server.Buffer.Consume.{add_handl_num_lem}
use nf_server.SockEvent.{register_read}
use nf_server.LineEvent.{LineEvent, finished, write_done, write_callback}

-- Whether the source finds bytes to write.
has_more :
    {b : Buffer} → IsValid b → ltb_ℤ (pos 0) (get_unhandle_num b) ≡ ltb 0 (length (unhandled b))
has_more {b} v = ground (arith, length-unhandled v, v.ordered)

left_test :
    (n : ℕ) (xs : List ℕ)
    → ltb 0 (length (if ltb (n + 1) (length xs) then drop n xs else [])) ≡ ltb (n + 1) (length xs)
left_test n xs = elim (Bool-cases (ltb (n + 1) (length xs))) [
  | inl more ↦ rw more (ground (arith, length-drop n xs))
  | inr last ↦ rw last refl
]

sendn_eagain :
    (buf : List ℕ) (vs ws : List Wrote) (j : ℕ)
    → IsTaken ws j
    → j ≤ length buf
    → sendn (ws ++ (refused eagain ∷ vs)) buf ≡ some (pos j, take j buf)
sendn_eagain buf vs ws j t le = elim (Bool-cases (ltb j (length buf))) [
  | inl short ↦ (sendn_short buf vs ws j t (ground arith)).0
  | inr full ↦
      let all : j ≡ length buf = ground arith in
      sendn_full buf (refused eagain ∷ vs) ws j t all
      ∙ ap (λ xs. some (pos (length buf), xs)) (sym (take-length buf))
      ∙ sym (ap (λ (k : ℕ). some (pos k, take k buf)) all)
]

-- The event after `n` bytes were taken: the bytes left, what it waits for, and all the bytes taken.
pub record IsWritten (e e' : LineEvent) (n : ℕ) (out : List ℕ) : Type 0 where
  pub valid : IsValid e'.write_buffer
  pub left : unhandled e'.write_buffer ≡ (
      if ltb (n + 1) (length (unhandled e.write_buffer))
      then drop n (unhandled e.write_buffer)
      else [])
  pub registered : e'.sock ≡ (
      if ltb (n + 1) (length (unhandled e.write_buffer))
      then e.sock
      else (register_read e.sock.handle e.sock).1)
  pub kept : e'.read_buffer ≡ e.read_buffer
  pub all : e'.sent ≡ e.sent ++ out

write_done_lem :
    (n : ℕ) (out : List ℕ) (e : LineEvent)
    → IsValid e.write_buffer
    → 0 < n
    → n ≤ length (unhandled e.write_buffer)
    → (e' : LineEvent) × (write_done (some (pos n, out)) e ≡ finished e') × IsWritten e e' n out
unfolding write_done
write_done_lem zero out e v h le = absurd (omega arith)
write_done_lem (suc n) out e v h le =
    elim (Bool-cases (ltb (suc n + 1) (length (unhandled e.write_buffer)))) [
      | inl more ↦ (
        e',
        rw (still, more) refl,
        record {
          valid = after.0;
          left = after.1;
          registered = rw more refl;
          kept = refl;
          all = refl;
        },
      )
      | inr last ↦ (
        record e' { sock = (register_read e.sock.handle e.sock).1 },
        rw (still, last) refl,
        record {
          valid = after.0;
          left = after.1;
          registered = rw last refl;
          kept = refl;
          all = refl;
        },
      )
    ]
  where
    b : Buffer
    b = add_handl_num (suc n) e.write_buffer

    after :
        IsValid b
        × (unhandled b ≡ (
            if ltb (suc n + 1) (length (unhandled e.write_buffer))
            then drop (suc n) (unhandled e.write_buffer)
            else []))
    after = add_handl_num_lem (suc n) v le

    still : ltb_ℤ (pos 0) (get_unhandle_num b) ≡ ltb (suc n + 1) (length (unhandled e.write_buffer))
    still =
        has_more after.0
        ∙ ap (λ xs. ltb 0 (length xs)) after.1
        ∙ left_test (suc n) (unhandled e.write_buffer)

    e' : LineEvent
    e' = record e { write_buffer = b; sent = e.sent ++ out }

-- When `write` takes the first `j` bytes, at least one, in whatever pieces and however often it is
-- interrupted, and would then block or has taken all of them, `write_callback` ends without an error
-- with a valid buffer and just these bytes sent. If two or more are left, they stay in order and the
-- registration is unchanged; otherwise the buffer is empty and the event waits for input again: a
-- single byte left over is never sent.
pub write_callback_lem :
    (e : LineEvent) (ws vs : List Wrote) (j : ℕ)
    → IsValid e.write_buffer
    → IsTaken ws j
    → 0 < j
    → j ≤ length (unhandled e.write_buffer)
    → (e' : LineEvent) × (write_callback (ws ++ (refused eagain ∷ vs)) e ≡ finished e')
      × IsWritten e e' j (take j (unhandled e.write_buffer))
unfolding write_callback
write_callback_lem e ws vs j v t h le =
    rw (sendn_eagain (unhandled e.write_buffer) vs ws j t le)
      (write_done_lem j (take j (unhandled e.write_buffer)) e v h le)
