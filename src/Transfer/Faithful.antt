-- ===== src/Transfer/Faithful.antt =====
-- HDLGameSvr.c and io.c: what the client sent is what the partition gets.
use hdlgame_installer.Base.{
  ℕ, zero, suc, ◌+◌, ◌-◌, ◌*◌, ◌<◌, ◌≤◌, true, false, List, ◌++◌, Option, some, none, ◌≡◌, refl,
  sym, subst, ap, ◌∙◌, ◌⊎◌, inl, inr, Code, ok, err, length, arith, if◌then◌else◌,
}
use mathlib.Core.List.{append_assoc}
use hdlgame_installer.Io.State.{
  IoState, state_ok, state_error, cmd_none, cmd_write, get_next_wr_buffer, signal_write_done,
  bank_size,
}
use hdlgame_installer.Io.Device.{File}
use hdlgame_installer.Io.Write.{exec_write_next}
use hdlgame_installer.Io.Thread.{io_thread, dispatch, after_exec, die}
use hdlgame_installer.Io.Write.Put.{pending-fill_bank, fill_bank-IsRing, fill_bank-IsPacked}
use hdlgame_installer.Io.Write.Stream.{IsRing, IsPacked, pending, Moved, exec_write_next-Moved}
use hdlgame_installer.Transfer.{
  io_bank_size, Phase, testing, filling, signalled, finished, Transfer, chunk_sectors,
  after_receive, settle, Step, take_bank, receive, check_status, connection_lost, complete, run_io,
  Reach, here, next, begin_write,
}

testing≢filling : testing ≡ filling → ⊥
testing≢filling e = cc

signalled≢filling : signalled ≡ filling → ⊥
signalled≢filling e = cc

-- The sectors that have not been handed over to the ring: those of a chunk that IOSignalWriteDone
-- has handed over are still counted until the status has been tested.
abbrev pub to_come : Phase → ℕ → ℕ
to_come testing r = r
to_come filling r = r
to_come signalled r = r - chunk_sectors r
to_come (finished c) r = r

to_come-filling : (p : Phase) (r : ℕ) → p ≡ filling → to_come p r ≡ r
to_come-filling p r e = rw e

chunk_sectors_bounds : (r : ℕ) → 0 < r → (0 < chunk_sectors r) × (chunk_sectors r ≤ io_bank_size)
unfolding chunk_sectors
chunk_sectors_bounds r h = ground arith

-- Only the last chunk is short.
chunk_sectors_full : (r : ℕ) → 0 < r - chunk_sectors r → chunk_sectors r ≡ io_bank_size
unfolding chunk_sectors
chunk_sectors_full r h = ground arith

module _ (k : File) where
  open k use {Dev, content}

  -- The I/O thread lives, and the file with the bytes that wait is `stream`.
  pub record Live (stream : List ℕ) (s : IoState) (d : Dev) : Type 0 where
    pub ring : IsRing s
    pub bank : s.bufmax ≡ io_bank_size
    pub is_ok : s.state ≡ state_ok
    pub is_alive : s.alive ≡ true
    pub no_ack : s.cmd_ack_sema ≡ 0
    pub writes : (s.command ≡ cmd_none) ⊎ (s.command ≡ cmd_write)
    pub whole : content d ++ pending s ≡ stream

  -- The I/O thread has stopped at an error, and the file is a beginning of `stream`.
  pub record Dead (stream : List ℕ) (s : IoState) (d : Dev) : Type 0 where
    pub is_error : s.state ≡ state_error
    pub is_gone : s.alive ≡ false
    pub no_ack : s.cmd_ack_sema ≡ 0
    pub rest : List ℕ
    pub begins : content d ++ rest ≡ stream

  -- What a round of IOThread makes of a living ring.
  abbrev Ran : List ℕ → IoState → Option (IoState × Dev) → Type 0
  Ran stream s none = Unit
  Ran stream s (some (s', d')) =
      (Live stream s' d' × (IsPacked s → IsPacked s') × (s'.held ≡ s.held)) ⊎ Dead stream s' d'

  Ran-after_exec :
      (stream : List ℕ) (s : IoState) (d : Dev) (o : Option (Code × IoState × Dev))
      → Live stream s d
      → Moved k s d (pending s) o
      → Ran stream s (after_exec k o)
  unfolding after_exec die
  Ran-after_exec stream s d none v moved = tt
  Ran-after_exec stream s d (some (ok n, s', d')) v moved =
      let u = moved.2 in
      inl (
        record {
          ring = moved.1;
          bank = u.same_bufmax ∙ v.bank;
          is_ok = u.same_state ∙ v.is_ok;
          is_alive = u.same_alive ∙ v.is_alive;
          no_ack = u.same_ack ∙ v.no_ack;
          writes = elim v.writes [
            | inl e ↦ inl (u.same_command ∙ e)
            | inr e ↦ inr (u.same_command ∙ e)
          ];
          whole = moved.0 ∙ v.whole;
        },
        moved.3,
        u.same_held,
      )
  Ran-after_exec stream s d (some (err e, s', d')) v moved = inr (record {
    is_error = refl;
    is_gone = refl;
    no_ack = moved.2 ∙ v.no_ack;
    rest = moved.0;
    begins = moved.1 ∙ v.whole;
  })

  woken : IoState → ℕ → IoState
  woken s n = record s { wakeups = n }

  woken-Live :
      (stream : List ℕ) (s : IoState) (d : Dev) (n : ℕ)
      → Live stream s d
      → Live stream (woken s n) d
  unfolding woken
  woken-Live stream s d n v = record {
    ring = record {
      bank_pos = v.ring.bank_pos;
      read_in = v.ring.read_in;
      write_at = v.ring.write_at;
      permits = v.ring.permits;
      filled = v.ring.filled;
    };
    bank = v.bank;
    is_ok = v.is_ok;
    is_alive = v.is_alive;
    no_ack = v.no_ack;
    writes = v.writes;
    whole = v.whole;
  }

  Ran-dispatch :
      (fuel : ℕ) (stream : List ℕ) (s : IoState) (d : Dev)
      → Live stream s d
      → Ran stream s (dispatch k fuel s.command s d)
  unfolding dispatch
  Ran-dispatch fuel stream s d v = elim v.writes [
    | inl e ↦ subst (λ c. Ran stream s (dispatch k fuel c s d)) (sym e) (inl (v, (λ f. f), refl))
    | inr e ↦
        subst (λ c. Ran stream s (dispatch k fuel c s d)) (sym e)
          (Ran-after_exec stream s d (exec_write_next k fuel s d) v
            (exec_write_next-Moved k fuel s d v.ring))
  ]

  io_thread-Ran :
      (fuel : ℕ) (stream : List ℕ) (s : IoState) (d : Dev)
      → Live stream s d
      → Ran stream s (io_thread k fuel s d)
  unfolding io_thread woken
  io_thread-Ran fuel stream s d v =
      subst (λ b. Ran stream s (if b then woke else some (s, d))) (sym v.is_alive) (at s.wakeups)
    where
      woke : Option (IoState × Dev)
      woke = elim s.wakeups [
        | zero ↦ some (s, d)
        | suc n ↦ dispatch k fuel s.command (record s { wakeups = n }) d
      ]

      at :
          (w : ℕ)
          → Ran stream s (elim w [
            | zero ↦ some (s, d)
            | suc n ↦ dispatch k fuel s.command (record s { wakeups = n }) d
          ])
      at zero = inl (v, (λ f. f), refl)
      at (suc n) = Ran-dispatch fuel stream (woken s n) d (woken-Live stream s d n v)

  -- What holds at every step of a transfer to a partition that held `start`.
  pub data IsFaithful (start : List ℕ) (t : Transfer k) : Type 0 where
    lives :
        Live (start ++ t.received) t.io t.dev
        → (0 < to_come t.phase t.remaining → IsPacked t.io)
        → (t.phase ≡ filling → (0 < t.io.held) × (0 < t.remaining))
        → IsFaithful start t
    stopped : Dead (start ++ t.received) t.io t.dev → IsFaithful start t

  -- IOGetNextWrBuffer takes one permit.
  taken : IoState → IoState
  taken s = record s { in_buf_sema = s.in_buf_sema - 1; held = s.held + 1 }

  get_next_wr_buffer-taken :
      (s s' : IoState) (a : ℕ)
      → get_next_wr_buffer s ≡ some (a, s')
      → (0 < s.in_buf_sema) × (s' ≡ taken s)
  unfolding get_next_wr_buffer taken
  get_next_wr_buffer-taken s s' a e = ground arith

  take_bank-IsFaithful :
      (start : List ℕ) (t : Transfer k) (a : ℕ) (io' : IoState)
      → t.phase ≡ testing
      → 0 < t.remaining
      → get_next_wr_buffer t.io ≡ some (a, io')
      → IsFaithful start t
      → IsFaithful start (record t { io = io'; phase = filling })
  unfolding taken
  take_bank-IsFaithful start t a io' at some_left e (stopped v) =
      let h = get_next_wr_buffer-taken t.io io' a e in
      subst (λ s. IsFaithful start (record t { io = s; phase = filling })) (sym h.1)
        (stopped (record {
          is_error = v.is_error;
          is_gone = v.is_gone;
          no_ack = v.no_ack;
          rest = v.rest;
          begins = v.begins;
        }))
  take_bank-IsFaithful start t a io' at some_left e (lives v packed held) =
      let h = get_next_wr_buffer-taken t.io io' a e in
      subst (λ s. IsFaithful start (record t { io = s; phase = filling })) (sym h.1)
        (lives
          (record {
            ring = record {
              bank_pos = v.ring.bank_pos;
              read_in = v.ring.read_in;
              write_at = v.ring.write_at;
              permits = omega (arith, v.ring.permits, h.0);
              filled = v.ring.filled;
            };
            bank = v.bank;
            is_ok = v.is_ok;
            is_alive = v.is_alive;
            no_ack = v.no_ack;
            writes = v.writes;
            whole = v.whole;
          })
          (λ left. packed (subst (λ p. 0 < to_come p t.remaining) (sym at) left))
          (λ _. (omega arith, some_left)))

  extend :
      (c p start got bs : List ℕ) → c ++ p ≡ start ++ got → c ++ (p ++ bs) ≡ start ++ (got ++ bs)
  extend c p start got bs e =
      sym (append_assoc c p bs) ∙ ap (λ l. l ++ bs) e ∙ append_assoc start got bs

  receive-IsFaithful :
      (start : List ℕ) (t : Transfer k) (bs : List ℕ)
      → t.phase ≡ filling
      → length bs ≡ chunk_sectors t.remaining * 2048
      → IsFaithful start t
      → IsFaithful start (after_receive k t bs)
  unfolding after_receive signal_write_done
  receive-IsFaithful start t bs e len (stopped v) = stopped (record {
    is_error = v.is_error;
    is_gone = v.is_gone;
    no_ack = v.no_ack;
    rest = v.rest ++ bs;
    begins = extend (content t.dev) v.rest start t.received bs v.begins;
  })
  receive-IsFaithful start t bs e len (lives v packed held) =
      let h = held e in
      let c = chunk_sectors_bounds t.remaining h.1 in
      let some_bytes : 0 < length bs = omega (arith, len, c.0) in
      let fits : length bs ≤ bank_size t.io = omega (arith, len, c.1, v.bank) in
      let full = packed (subst (λ n. 0 < n) (sym (to_come-filling t.phase t.remaining e)) h.1) in
      lives
        (record {
          ring = fill_bank-IsRing t.io bs v.ring full h.0 some_bytes fits;
          bank = v.bank;
          is_ok = v.is_ok;
          is_alive = v.is_alive;
          no_ack = v.no_ack;
          writes = inr refl;
          whole =
              ap (λ p. content t.dev ++ p)
                (pending-fill_bank t.io bs v.ring full h.0 some_bytes fits)
              ∙ extend (content t.dev) (pending t.io) start t.received bs v.whole;
        })
        (λ left.
          fill_bank-IsPacked t.io bs v.ring full h.0 some_bytes fits
            (omega (arith, len, v.bank, chunk_sectors_full t.remaining left)))
        (λ q. absurd (signalled≢filling q))

  -- The status that WriteGame sees is an error exactly when the thread has stopped by then.
  check_status-IsFaithful :
      (start : List ℕ) (t : Transfer k)
      → t.phase ≡ signalled
      → IsFaithful start t
      → IsFaithful start (settle k t.io.state t)
  unfolding settle
  check_status-IsFaithful start t e (stopped v) =
      subst (λ st. IsFaithful start (settle k st t)) (sym v.is_error) (stopped v)
  check_status-IsFaithful start t e (lives v packed held) =
      subst (λ st. IsFaithful start (settle k st t)) (sym v.is_ok)
        (lives v (λ left. packed (subst (λ p. 0 < to_come p t.remaining) (sym e) left))
          (λ q. absurd (testing≢filling q)))

  -- A dead thread runs no more.
  abbrev DeadAt : List ℕ → Option (IoState × Dev) → Type 0
  DeadAt stream none = Unit
  DeadAt stream (some (s, d)) = Dead stream s d

  io_thread-Dead :
      (fuel : ℕ) (stream : List ℕ) (s : IoState) (d : Dev)
      → Dead stream s d
      → DeadAt stream (io_thread k fuel s d)
  unfolding io_thread
  io_thread-Dead fuel stream s d v =
      subst
        (λ b. DeadAt stream (
          if b
          then elim s.wakeups [
            | zero ↦ some (s, d)
            | suc n ↦ dispatch k fuel s.command (record s { wakeups = n }) d
          ]
          else some (s, d)))
        (sym v.is_gone) v

  run_io-IsFaithful :
      (fuel : ℕ) (start : List ℕ) (t u : Transfer k) (r : IoState × Dev)
      → io_thread k fuel t.io t.dev ≡ some r
      → u ≡ record t { io = r.0; dev = r.1 }
      → IsFaithful start t
      → IsFaithful start u
  run_io-IsFaithful fuel start t u r e1 e2 (stopped v) = subst (IsFaithful start) (sym e2) (
      stopped (
        subst (DeadAt (start ++ t.received)) e1
          (io_thread-Dead fuel (start ++ t.received) t.io t.dev v)))
  run_io-IsFaithful fuel start t u r e1 e2 (lives v packed held) =
      let ran : Ran (start ++ t.received) t.io (some r) =
        subst (Ran (start ++ t.received) t.io) e1
          (io_thread-Ran fuel (start ++ t.received) t.io t.dev v) in
      subst (IsFaithful start) (sym e2) (elim ran [
        | inl h ↦
            lives h.0 (λ left. h.1 (packed left))
              (λ q. (omega (arith, h.2, (held q).0), (held q).1))
        | inr h ↦ stopped h
      ])

  Step-IsFaithful :
      (fuel : ℕ) (start : List ℕ) {t u : Transfer k}
      → Step k fuel t u
      → IsFaithful start t
      → IsFaithful start u
  Step-IsFaithful fuel start {t} {u} (take_bank a io' e1 e2 e3 e4) f =
      subst (IsFaithful start) (sym e4) (take_bank-IsFaithful start t a io' e1 e2 e3 f)
  Step-IsFaithful fuel start {t} {u} (receive bs e1 e2 e3) f =
      subst (IsFaithful start) (sym e3) (receive-IsFaithful start t bs e1 e2 f)
  Step-IsFaithful fuel start {t} {u} (check_status e1 e2) f =
      subst (IsFaithful start) (sym e2) (check_status-IsFaithful start t e1 f)
  Step-IsFaithful fuel start {t} {u} (connection_lost e1 e2) (stopped v) =
      subst (IsFaithful start) (sym e2) (stopped v)
  Step-IsFaithful fuel start {t} {u} (connection_lost e1 e2) (lives v packed held) =
      subst (IsFaithful start) (sym e2)
        (lives v (λ left. packed (subst (λ p. 0 < to_come p t.remaining) (sym e1) left)) (λ e. cc))
  Step-IsFaithful fuel start {t} {u} (complete e1 e2 e3) (stopped v) =
      subst (IsFaithful start) (sym e3) (stopped v)
  Step-IsFaithful fuel start {t} {u} (complete e1 e2 e3) (lives v packed held) =
      subst (IsFaithful start) (sym e3)
        (lives v (λ left. packed (subst (λ p. 0 < to_come p t.remaining) (sym e1) left)) (λ e. cc))
  Step-IsFaithful fuel start {t} {u} (run_io r e1 e2) f = run_io-IsFaithful fuel start t u r e1 e2 f

  pub begin_write-IsFaithful :
      (old : IoState) (buffers bd : ℕ → ℕ) (d : Dev) (sectors : ℕ)
      → IsFaithful (content d) (begin_write k old buffers bd d sectors)
  unfolding begin_write
  begin_write-IsFaithful old buffers bd d sectors =
      lives
        (record {
          ring = record {
            bank_pos = omega arith;
            read_in = omega arith;
            write_at = refl;
            permits = omega arith;
            filled = tt;
          };
          bank = refl;
          is_ok = refl;
          is_alive = refl;
          no_ack = refl;
          writes = inl refl;
          whole = refl;
        })
        (λ _. tt) (λ e. absurd (testing≢filling e))

  pub Reach-IsFaithful :
      (fuel : ℕ) (start : List ℕ) {t u : Transfer k}
      → Reach k fuel t u
      → IsFaithful start t
      → IsFaithful start u
  Reach-IsFaithful fuel start here f = f
  Reach-IsFaithful fuel start (next r st) f =
      Step-IsFaithful fuel start st (Reach-IsFaithful fuel start r f)
