-- ===== src/AsynLog/Order.antt =====
-- Lines that are logged while the thread of `write_log` runs.
use nf_server.Prelude.{
  ℕ, zero, suc, ◌*◌, ◌-◌, ◌≤◌, ◌≡◌, refl, sym, ap, ◌∙◌, subst, true, false, some, List, [], ◌∷◌,
  ◌++◌, append_assoc, append-nil, some_injective, arith, length, if◌then◌else◌, ◌==◌, length-append,
}
use nf_server.Config.{Bytes}
use nf_server.AsynLog.{
  Log, log_run, Writer, looping, inside, waiting, ended, signal, push, write_log, write_inside,
  c_str,
}
use nf_server.AsynLog.Steps.{strings, Steps, none_yet, pushes, writes, write_times, init, unopened}

-- A log that runs, with its mutex free.
abbrev pub running : ℕ → Writer → (log_buffer file : List Bytes) → Log
running level writer log_buffer file = record {
  status = log_run;
  level = level;
  log_buffer = log_buffer;
  file = file;
  writer = writer;
  locked = false;
}

-- The thread has not ended, and waits at no lines only.
abbrev pub IsAwake : Writer → List Bytes → Type 0
IsAwake looping buf = Unit {0}
IsAwake inside buf = Unit {0}
IsAwake waiting buf = buf ≡ []
IsAwake ended buf = ⊥

-- A log that runs, whose lines, in the file and before it, are `all`.
record IsRunning (l : Log) (all : List Bytes) : Type 0 where
  level : ℕ
  writer : Writer
  log_buffer : List Bytes
  file : List Bytes
  form : l ≡ running level writer log_buffer file
  awake : IsAwake writer log_buffer
  order : file ++ strings log_buffer ≡ all

strings-append : (xs ys : List Bytes) → strings (xs ++ ys) ≡ strings xs ++ strings ys
strings-append [] ys = refl
strings-append (x ∷ xs) ys = ap (λ (l : List Bytes). c_str x ∷ l) (strings-append xs ys)

several : (line x : Bytes) (buf : List Bytes) → (suc (length (buf ++ (line ∷ []))) == 1) ≡ false
several line x buf = ground (arith, length-append buf (line ∷ []))

-- The signal of `push` wakes the thread where it waits.
push-IsAwake :
    (w : Writer) (buf : List Bytes) (line : Bytes)
    → IsAwake w buf
    → IsAwake (if length (buf ++ (line ∷ [])) == 1 then signal w else w) (buf ++ (line ∷ []))
push-IsAwake w [] line h = woken w h
  where
    woken : (w : Writer) → IsAwake w [] → IsAwake (signal w) (line ∷ [])
    woken looping h = tt
    woken inside h = tt
    woken waiting h = tt
    woken ended h = h
push-IsAwake looping (x ∷ buf) line h = rw (several line x buf) tt
push-IsAwake inside (x ∷ buf) line h = rw (several line x buf) tt
push-IsAwake waiting (x ∷ buf) line h = absurd cc
push-IsAwake ended (x ∷ buf) line h = absurd h

push-IsRunning :
    (line : Bytes) {l l' : Log} {all : List Bytes}
    → IsRunning l all
    → push line l ≡ some l'
    → IsRunning l' (all ++ (c_str line ∷ []))
unfolding push
push-IsRunning line {l} {l'} {all} v e =
    let buf = v.log_buffer ++ (line ∷ []) in
    let w = if length buf == 1 then signal v.writer else v.writer in
    let pushed : some (running v.level w buf v.file) ≡ some l' =
      sym (ap (λ (t : Log). push line t) v.form) ∙ e in
    record {
      level = v.level;
      writer = w;
      log_buffer = buf;
      file = v.file;
      form = sym (some_injective pushed);
      awake = push-IsAwake v.writer v.log_buffer line v.awake;
      order =
          ap (λ (s : List Bytes). v.file ++ s) (strings-append v.log_buffer (line ∷ []))
          ∙ sym (append_assoc v.file (strings v.log_buffer) (c_str line ∷ []))
          ∙ ap (λ (s : List Bytes). s ++ (c_str line ∷ [])) v.order;
    }

write_running :
    (level : ℕ) (w : Writer) (buf file : List Bytes)
    → IsAwake w buf
    → IsRunning (write_log (running level w buf file)) (file ++ strings buf)
unfolding write_log write_inside
write_running level looping buf file h = record {
  level = level;
  writer = inside;
  log_buffer = buf;
  file = file;
  form = refl;
  awake = tt;
  order = refl;
}
write_running level inside [] file h = record {
  level = level;
  writer = waiting;
  log_buffer = [];
  file = file;
  form = refl;
  awake = refl;
  order = refl;
}
write_running level inside (line ∷ buf) file h = record {
  level = level;
  writer = looping;
  log_buffer = buf;
  file = file ++ (c_str line ∷ []);
  form = refl;
  awake = tt;
  order = append_assoc file (c_str line ∷ []) (strings buf);
}
write_running level waiting buf file h = record {
  level = level;
  writer = waiting;
  log_buffer = buf;
  file = file;
  form = refl;
  awake = h;
  order = refl;
}
write_running level ended buf file h = absurd h

write_log-IsRunning : {l : Log} {all : List Bytes} → IsRunning l all → IsRunning (write_log l) all
write_log-IsRunning {l} {all} v =
    subst (λ (t : Log). IsRunning (write_log t) all) (sym v.form)
      (subst
        (λ (a : List Bytes). IsRunning (write_log (running v.level v.writer v.log_buffer v.file)) a)
        v.order (write_running v.level v.writer v.log_buffer v.file v.awake))

Steps-IsRunning :
    {l l' : Log} {all lines : List Bytes}
    → IsRunning l all
    → Steps l lines l'
    → IsRunning l' (all ++ strings lines)
Steps-IsRunning {l} {l'} {all} v none_yet = subst (IsRunning l) (sym (append-nil all)) v
Steps-IsRunning {l} {l'} {all} v (pushes {lines} line steps e) =
    subst (IsRunning l')
      (append_assoc all (strings lines) (c_str line ∷ [])
        ∙ ap (λ (s : List Bytes). all ++ s) (sym (strings-append lines (line ∷ []))))
      (push-IsRunning line (Steps-IsRunning v steps) e)
Steps-IsRunning v (writes steps) = write_log-IsRunning (Steps-IsRunning v steps)

-- The steps that the thread needs to write the lines.
abbrev needed : Writer → ℕ → ℕ
needed looping n = 2 * n
needed inside n = 2 * n - 1
needed waiting n = 0
needed ended n = 0

written :
    (n level : ℕ) (w : Writer) (buf file : List Bytes)
    → IsAwake w buf
    → needed w (length buf) ≤ n
    → ((write_times n (running level w buf file)).file ≡ file ++ strings buf)
      × ((write_times n (running level w buf file)).log_buffer ≡ [])
unfolding write_times write_log write_inside
written zero level looping [] file h enough = (sym (append-nil file), refl)
written zero level looping (line ∷ buf) file h enough = absurd (omega arith)
written zero level inside [] file h enough = (sym (append-nil file), refl)
written zero level inside (line ∷ buf) file h enough = absurd (omega arith)
written zero level waiting buf file h enough =
    (sym (append-nil file) ∙ ap (λ (b : List Bytes). file ++ strings b) (sym h), h)
written zero level ended buf file h enough = absurd h
written (suc n) level looping buf file h enough = written n level inside buf file tt (omega arith)
written (suc n) level inside [] file h enough = written n level waiting [] file refl (omega arith)
written (suc n) level inside (line ∷ buf) file h enough =
    let (all, done) = written n level looping buf (file ++ (c_str line ∷ [])) tt (omega arith) in
    (all ∙ append_assoc file (c_str line ∷ []) (strings buf), done)
written (suc n) level waiting buf file h enough = written n level waiting buf file h (omega arith)
written (suc n) level ended buf file h enough = absurd h

needed-le : (w : Writer) (n : ℕ) → needed w n ≤ 2 * n
needed-le looping n = omega arith
needed-le inside n = omega arith
needed-le waiting n = omega arith
needed-le ended n = omega arith

write_times-IsRunning :
    {l : Log} {all : List Bytes}
    → IsRunning l all
    → ((write_times (2 * length l.log_buffer) l).file ≡ all)
      × ((write_times (2 * length l.log_buffer) l).log_buffer ≡ [])
write_times-IsRunning {l} {all} v =
    let (file, done) =
      written (2 * length v.log_buffer) v.level v.writer v.log_buffer v.file v.awake
        (needed-le v.writer (length v.log_buffer)) in
    let last : write_times (2 * length l.log_buffer) l
        ≡ write_times (2 * length v.log_buffer) (running v.level v.writer v.log_buffer v.file) =
      ap (λ (t : Log). write_times (2 * length t.log_buffer) t) v.form in
    (ap (λ (t : Log). t.file) last ∙ file ∙ v.order, ap (λ (t : Log). t.log_buffer) last ∙ done)

-- After an `init` whose thread makes its first step after STATUS is set, in any order of the lines that any
-- threads log and the steps of the writing thread: the lines in the file, followed by those that are
-- still to be written, are the lines logged, in their order, each up to its first 0; and two steps of
-- that thread for each line that is left write them all.
pub file-Steps :
    (level : ℕ) (lines : List Bytes) {l : Log}
    → Steps (init true true 0 (unopened level)).1 lines l
    → (l.file ++ strings l.log_buffer ≡ strings lines)
      × ((write_times (2 * length l.log_buffer) l).file ≡ strings lines)
      × ((write_times (2 * length l.log_buffer) l).log_buffer ≡ [])
unfolding init
file-Steps level lines {l} steps =
    let start : IsRunning (running level looping [] []) [] = record {
      level = level;
      writer = looping;
      log_buffer = [];
      file = [];
      form = refl;
      awake = tt;
      order = refl;
    } in
    let v = Steps-IsRunning start steps in
    let (file, done) = write_times-IsRunning v in
    (ap (λ (t : Log). t.file ++ strings t.log_buffer) v.form ∙ v.order, file, done)
