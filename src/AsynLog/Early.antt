-- ===== src/AsynLog/Early.antt =====
-- A thread of `write_log` that looks at STATUS before `Log::init` has set it.
use nf_server.Prelude.{
  ℕ, zero, suc, ◌<◌, ◌≡◌, refl, sym, ap, ◌∙◌, subst, Bool, true, false, none, some, List, [], ◌∷◌,
  ◌++◌, append_assoc, append-nil, some_injective, arith, length, if◌then◌else◌, ◌==◌,
}
use nf_server.Prelude.Int.{success}
use nf_server.Config.{Bytes}
use nf_server.AsynLog.{
  Log, Writer, looping, inside, waiting, ended, signal, push, write_log, write_inside, is_run,
}
use nf_server.AsynLog.Steps.{Steps, none_yet, pushes, writes, write_times, init, unopened}

-- A log whose thread has ended.
record IsEnded (l : Log) (lines : List Bytes) : Type 0 where
  writer : l.writer ≡ ended
  free : l.locked ≡ false
  file : l.file ≡ []
  log_buffer : l.log_buffer ≡ lines

unlocked : (b : Bool) (u l : Log) → b ≡ false → (if b then none else some u) ≡ some l → u ≡ l
unlocked true u l free e = absurd cc
unlocked false u l free e = some_injective e

push-IsEnded :
    (line : Bytes) {l l' : Log} {lines : List Bytes}
    → IsEnded l lines
    → push line l ≡ some l'
    → IsEnded l' (lines ++ (line ∷ []))
unfolding push
push-IsEnded line {l} {l'} {lines} v e =
    let buf = l.log_buffer ++ (line ∷ []) in
    let u = record l {
      log_buffer = buf;
      writer = if length buf == 1 then signal l.writer else l.writer;
    } in
    subst (λ (t : Log). IsEnded t (lines ++ (line ∷ []))) (unlocked l.locked u l' v.free e)
      (record {
        writer =
            ap (λ (w : Writer). if length buf == 1 then signal w else w) v.writer
            ∙ asleep (length buf == 1);
        free = v.free;
        file = v.file;
        log_buffer = ap (λ (b : List Bytes). b ++ (line ∷ [])) v.log_buffer;
      })
  where
    asleep : (b : Bool) → (if b then signal ended else ended) ≡ ended
    asleep true = refl
    asleep false = refl

write_log-IsEnded : {l : Log} {lines : List Bytes} → IsEnded l lines → write_log l ≡ l
unfolding write_log
write_log-IsEnded {l} v =
    ap
      (λ (w : Writer).
        let t : Log = elim w as (λ x. Log) [
          | looping ↦ record l { writer = if is_run l.status then inside else ended }
          | inside ↦ write_inside l
          | waiting ↦ l
          | ended ↦ l
        ] in
        t)
      v.writer

Steps-IsEnded :
    {l l' : Log} {before lines : List Bytes}
    → IsEnded l before
    → Steps l lines l'
    → IsEnded l' (before ++ lines)
Steps-IsEnded {l} {before = before} v none_yet = subst (IsEnded l) (sym (append-nil before)) v
Steps-IsEnded {l' = l'} {before = before} v (pushes {lines} line steps e) =
    subst (IsEnded l') (append_assoc before lines (line ∷ []))
      (push-IsEnded line (Steps-IsEnded v steps) e)
Steps-IsEnded {before = before} v (writes {lines} {t} steps) =
    let w = Steps-IsEnded v steps in
    subst (λ (u : Log). IsEnded u (before ++ lines)) (sym (write_log-IsEnded w)) w

started_early :
    (early level : ℕ) → IsEnded (write_times early (record (unopened level) { writer = ended })) []
unfolding write_times write_log
started_early zero level = record { writer = refl; free = refl; file = refl; log_buffer = refl }
started_early (suc early) level = started_early early level

-- After an `init` whose thread makes a step before STATUS is set, which `init` reports as a success:
-- no line is ever written, whatever is logged, and all lines stay in the buffer.
pub init-Steps :
    (level early : ℕ) (lines : List Bytes) {l : Log}
    → 0 < early
    → Steps (init true true early (unopened level)).1 lines l
    → ((init true true early (unopened level)).0 ≡ success) × (l.file ≡ []) × (l.log_buffer ≡ lines)
unfolding init write_times write_log
init-Steps level zero lines before steps = absurd (omega arith)
init-Steps level (suc early) lines before steps =
    let e = started_early early level in
    let v =
      Steps-IsEnded
        (record { writer = e.writer; free = e.free; file = e.file; log_buffer = e.log_buffer })
        steps in
    (refl, v.file, v.log_buffer)
