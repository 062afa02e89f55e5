-- ===== src/Io/Thread/End.antt =====
-- io.c: how IOEndWrite ends. It drains the ring while the thread lives, and waits for ever once
-- the thread has died.
use hdlgame_installer.Base.{
  ℕ, zero, suc, ◌+◌, ◌<◌, ◌*◌, slice, subst, true, false, if◌then◌else◌, List, [], ◌++◌, some, ◌≡◌,
  refl, sym, ap, ◌∙◌, ◌⊎◌, inl, inr, Code, ok, err, arith,
}
use mathlib.Core.List.{append-nil}
use hdlgame_installer.Io.State.{
  IoState, bank_size, ThreadState, state_error, cmd_write_end, io_exec,
}
use hdlgame_installer.Io.Device.{File}
use hdlgame_installer.Io.Write.{
  write_retry, exec_write_at, exec_write_next, write_finish, advance_read, gathered,
}
use hdlgame_installer.Io.Write.Stream.{IsRing, pending, chunks, Moved, exec_write_next-Moved}
use hdlgame_installer.Io.Thread.{
  drain, acknowledge, dispatch, io_thread, returned, hangs, await_ack, io_end_write,
}

module _ (k : File) where
  open k use {Dev, content}

  -- The fuel covers the retries of every write.
  abbrev pub Covers : ℕ → Type 0
  Covers fuel = (d : Dev) (bs : List ℕ) → (r : Code × Dev) × (write_retry k fuel d bs ≡ some r)

  exec_write_at_total :
      (fuel : ℕ) (s : IoState) (d : Dev) (o : ℕ)
      → Covers fuel
      → (r : Code × IoState × Dev) × (exec_write_at k fuel s d o ≡ some r)
  unfolding exec_write_at write_finish
  exec_write_at_total fuel s d zero enough = ((ok 0, s, d), refl)
  exec_write_at_total fuel s d (suc n) enough =
      let w = enough d (slice s.buffer (s.read_ptr * bank_size s) (gathered s n).to_write) in
      (
        (w.0.0, advance_read s (gathered s n) w.0.0, w.0.1),
        ap (write_finish k s (gathered s n)) w.1,
      )

  -- What a drained ring has become: acknowledged, and written out unless an error is recorded.
  abbrev Drained : IoState → Dev → IoState × Dev → Type 0
  Drained s d (s', d') =
      (s'.cmd_ack_sema ≡ s.cmd_ack_sema + 1)
      × ((content d' ≡ content d ++ pending s) ⊎ (s'.state ≡ state_error))

  pending-nil : (s : IoState) → s.out_buf_sema ≡ 0 → pending s ≡ []
  pending-nil s e = ap (chunks s.buffer s.bd (bank_size s) s.nbufs s.read_ptr) e

  drain_case :
      (rounds fuel : ℕ) (s : IoState) (d : Dev) (r : Code) (s' : IoState) (d' : Dev)
      → exec_write_next k fuel s d ≡ some (r, s', d')
      → Moved k s d (pending s) (some (r, s', d'))
      → s.out_buf_sema < suc rounds
      → (IsRing s'
          → s'.out_buf_sema < rounds
          → (x : IoState × Dev) × (drain k rounds fuel s' d' ≡ some x) × Drained s' d' x)
      → (x : IoState × Dev) × (drain k (suc rounds) fuel s d ≡ some x) × Drained s d x
  unfolding drain acknowledge
  drain_case rounds fuel s d (err x) s' d' e moved lt rest = (
    (acknowledge (record s' { state = state_error }), d'),
    rw (e, drain) refl,
    (omega (arith, moved.2), inr refl),
  )
  drain_case rounds fuel s d (ok zero) s' d' e moved lt rest =
      let empty = moved.4 refl in
      (
        (acknowledge s', d'),
        rw (e, drain) refl,
        (
          omega (arith, moved.2.same_ack),
          inl (
              sym (append-nil (content d'))
              ∙ ap (λ t. content d' ++ t)
                  (sym (pending-nil s' (omega (arith, moved.2.fewer, empty))))
              ∙ moved.0),
        ),
      )
  drain_case rounds fuel s d (ok (suc m)) s' d' e moved lt rest =
      let y = rest moved.1 (omega (arith, moved.5 (omega arith))) in
      (
        y.0,
        rw (e, drain) y.1,
        (
          omega (arith, moved.2.same_ack, y.2.0),
          elim y.2.1 [ inl c ↦ inl (c ∙ moved.0) | inr z ↦ inr z ],
        ),
      )

  drain-Drained :
      (rounds fuel : ℕ) (s : IoState) (d : Dev)
      → Covers fuel
      → IsRing s
      → s.out_buf_sema < rounds
      → (r : IoState × Dev) × (drain k rounds fuel s d ≡ some r) × Drained s d r
  unfolding exec_write_next
  drain-Drained zero fuel s d enough v lt = absurd (omega arith)
  drain-Drained (suc rounds) fuel s d enough v lt =
      let x = exec_write_at_total fuel s d s.out_buf_sema enough in
      drain_case rounds fuel s d x.0.0 x.0.1 x.0.2 x.1
        (subst (Moved k s d (pending s)) x.1 (exec_write_next-Moved k fuel s d v)) lt
        (λ v' lt'. drain-Drained rounds fuel x.0.1 x.0.2 enough v' lt')

  thread_runs :
      (fuel : ℕ) (s : IoState) (d : Dev)
      → s.alive ≡ true
      → io_thread k fuel (io_exec cmd_write_end s) d
        ≡ drain k (s.out_buf_sema + 1) fuel (record s { command = cmd_write_end }) d
  unfolding io_thread io_exec dispatch
  thread_runs fuel s d alive =
      ap
        (λ b.
          if b
          then drain k (s.out_buf_sema + 1) fuel (record s { command = cmd_write_end }) d
          else some (io_exec cmd_write_end s, d))
        alive

  acknowledged :
      (s : IoState) (d : Dev) (n : ℕ)
      → s.cmd_ack_sema ≡ suc n
      → await_ack k (some (s, d)) ≡ some (returned s.state d)
  unfolding await_ack
  acknowledged s d n e = rw e

  -- While the thread lives, IOEndWrite returns, and it reports an error or leaves the file with all
  -- the bytes that waited, in order. The ring's pointers and semaphores agree, and its banks but the
  -- last are full; and the retries of a write are assumed to end, within the fuel: no write fails for
  -- ever with errors other than -EIO.
  pub io_end_write_returns :
      (fuel : ℕ) (s : IoState) (d : Dev)
      → Covers fuel
      → IsRing s
      → s.alive ≡ true
      → (st : ThreadState) × (d' : Dev) × (io_end_write k fuel s d ≡ some (returned st d'))
        × ((content d' ≡ content d ++ pending s) ⊎ (st ≡ state_error))
  unfolding io_end_write dispatch
  io_end_write_returns fuel s d enough v alive =
      let s' : IoState = record s { command = cmd_write_end } in
      let x =
        drain-Drained (s.out_buf_sema + 1) fuel s' d enough
          (record {
            bank_pos = v.bank_pos;
            read_in = v.read_in;
            write_at = v.write_at;
            permits = v.permits;
            filled = v.filled;
          })
          (omega arith) in
      (
        x.0.0.state,
        x.0.1,
        ap (await_ack k) (thread_runs fuel s d alive ∙ x.1)
            ∙ acknowledged x.0.0 x.0.1 s.cmd_ack_sema (omega (arith, x.2.0)),
        x.2.1,
      )

  waits :
      (s : IoState) (d : Dev)
      → s.cmd_ack_sema ≡ 0
      → await_ack k (some (io_exec cmd_write_end s, d)) ≡ some hangs
  unfolding await_ack io_exec
  waits s d e = rw e

  -- Once the thread is gone without an acknowledgement, IOEndWrite waits for ever: nothing signals
  -- CmdAckSema any more.
  pub io_end_write-hangs :
      (fuel : ℕ) (s : IoState) (d : Dev)
      → s.alive ≡ false
      → s.cmd_ack_sema ≡ 0
      → io_end_write k fuel s d ≡ some hangs
  unfolding io_end_write io_thread io_exec
  io_end_write-hangs fuel s d dead none_yet =
      ap (await_ack k) (
        ap
          (λ b.
            if b
            then dispatch k fuel cmd_write_end (record s { command = cmd_write_end }) d
            else some (io_exec cmd_write_end s, d))
          dead)
      ∙ waits s d none_yet
