-- ===== src/Transfer/Complete.antt =====
-- HDLGameSvr.c and io.c: how much of a game arrives, and how a transfer ends.
use hdlgame_installer.Base.{
  ℕ, ◌+◌, ◌-◌, ◌*◌, ◌≤◌, true, List, ◌++◌, some, ◌≡◌, ◌≢◌, refl, sym, ap, subst, false, ◌∙◌, ◌⊎◌,
  inl, inr, ok, err, eio, length, length-append, arith,
}
use hdlgame_installer.Io.State.{IoState, ThreadState, state_ok, state_error}
use hdlgame_installer.Io.Device.{File}
use hdlgame_installer.Io.Thread.{returned, hangs, io_end_write}
use hdlgame_installer.Io.Thread.End.{Covers, io_end_write_returns, io_end_write-hangs}
use hdlgame_installer.Io.Write.Stream.{pending}
use hdlgame_installer.Transfer.{
  Phase, testing, filling, signalled, finished, Transfer, chunk_sectors, after_receive, settle,
  Step, take_bank, receive, check_status, connection_lost, complete, run_io, Reach, here, next,
  begin_write,
}
use hdlgame_installer.Transfer.Faithful.{
  to_come, IsFaithful, lives, stopped, Reach-IsFaithful, begin_write-IsFaithful,
}

chunk_sectors-le : (r : ℕ) → chunk_sectors r ≤ r
unfolding chunk_sectors
chunk_sectors-le r = ground arith

true≢false : true ≡ false → ⊥
true≢false e = cc

ok≢error : state_ok ≡ state_error → ⊥
ok≢error e = cc

module _ (k : File) where
  open k use {Dev, content}

  -- The bytes that came and the sectors that remain make up the game, until an I/O error ends the
  -- loop; and WriteGame succeeds only once none remains.
  record IsCounted (total : ℕ) (t : Transfer k) : Type 0 where
    count :
        (length t.received + to_come t.phase t.remaining * 2048 ≡ total * 2048)
        ⊎ (t.phase ≡ finished (err eio))
    none_left : t.phase ≡ finished (ok 0) → t.remaining ≡ 0

  -- In a phase whose sectors to come are as many, the count stays.
  count_at :
      (total : ℕ) (t : Transfer k) (p : Phase) (n : ℕ)
      → t.phase ≡ p
      → p ≢ finished (err eio)
      → to_come p t.remaining ≡ n
      → IsCounted total t
      → length t.received + n * 2048 ≡ total * 2048
  count_at total t p n e ne same c = elim c.count [
    | inl h ↦
        ap (λ m. length t.received + m * 2048) (sym same ∙ ap (λ q. to_come q t.remaining) (sym e))
        ∙ h
    | inr h ↦ absurd (ne (sym e ∙ h))
  ]

  receive-IsCounted :
      (total : ℕ) (t : Transfer k) (bs : List ℕ)
      → t.phase ≡ filling
      → length bs ≡ chunk_sectors t.remaining * 2048
      → IsCounted total t
      → IsCounted total (after_receive k t bs)
  unfolding after_receive
  receive-IsCounted total t bs e len c = record {
    count = inl (
        omega (
          arith,
          count_at total t filling t.remaining e (λ q. cc) refl c,
          length-append t.received bs,
          chunk_sectors-le t.remaining,
        ));
    none_left = λ q. cc;
  }

  settle-IsCounted :
      (total : ℕ) (t : Transfer k) (st : ThreadState)
      → t.phase ≡ signalled
      → IsCounted total t
      → IsCounted total (settle k st t)
  unfolding settle
  settle-IsCounted total t state_error e c = record { count = inr refl; none_left = λ q. cc }
  settle-IsCounted total t state_ok e c = record {
    count =
        inl
          (count_at total t signalled (t.remaining - chunk_sectors t.remaining) e (λ q. cc) refl c);
    none_left = λ q. cc;
  }

  Step-IsCounted :
      (fuel total : ℕ) {t u : Transfer k} → Step k fuel t u → IsCounted total t → IsCounted total u
  Step-IsCounted fuel total {t} (take_bank a io' e1 e2 e3 e4) c =
      subst (IsCounted total) (sym e4) (record {
        count = inl (count_at total t testing t.remaining e1 (λ q. cc) refl c);
        none_left = λ q. cc;
      })
  Step-IsCounted fuel total {t} (receive bs e1 e2 e3) c =
      subst (IsCounted total) (sym e3) (receive-IsCounted total t bs e1 e2 c)
  Step-IsCounted fuel total {t} (check_status e1 e2) c =
      subst (IsCounted total) (sym e2) (settle-IsCounted total t t.io.state e1 c)
  Step-IsCounted fuel total {t} (connection_lost e1 e2) c =
      subst (IsCounted total) (sym e2) (record {
        count = inl (count_at total t filling t.remaining e1 (λ q. cc) refl c);
        none_left = λ q. cc;
      })
  Step-IsCounted fuel total {t} (complete e1 e2 e3) c = subst (IsCounted total) (sym e3) (record {
    count = inl (count_at total t testing t.remaining e1 (λ q. cc) refl c);
    none_left = λ q. e2;
  })
  Step-IsCounted fuel total (run_io r e1 e2) c =
      subst (IsCounted total) (sym e2) (record { count = c.count; none_left = c.none_left })

  Reach-IsCounted :
      (fuel total : ℕ) {t u : Transfer k} → Reach k fuel t u → IsCounted total t → IsCounted total u
  Reach-IsCounted fuel total here c = c
  Reach-IsCounted fuel total (next r st) c =
      Step-IsCounted fuel total st (Reach-IsCounted fuel total r c)

  module _ (old : IoState) (buffers bd : ℕ → ℕ) (d : Dev) (sectors fuel : ℕ) {t : Transfer k}
      (run : Reach k fuel (begin_write k old buffers bd d sectors) t) where
    faithful : IsFaithful k (content d) t
    faithful =
        Reach-IsFaithful k fuel (content d) run (begin_write-IsFaithful k old buffers bd d sectors)

    counted : IsCounted sectors t
    unfolding begin_write
    counted =
        Reach-IsCounted fuel sectors run (record { count = inl (omega arith); none_left = λ q. cc })

    -- At every moment of a transfer, whatever the order in which the rounds of IOThread and the calls of
    -- WriteGame come, and also when a write fails half-way with -EIO, the partition holds what it held
    -- before and then a beginning of the bytes received from the client.
    pub partition_holds_prefix : (rest : List ℕ) × (content t.dev ++ rest ≡ content d ++ t.received)
    partition_holds_prefix = elim faithful [
      | lives v p h ↦ (pending t.io, v.whole)
      | stopped v ↦ (v.rest, v.begins)
    ]

    -- When WriteGame has returned 0 and the I/O thread lives, all bytes of the game have come, and
    -- IOEndWrite returns: it reports an error, or the partition has got exactly those bytes. The
    -- retries of a write are assumed to end, within the fuel: no write fails for ever with errors
    -- other than -EIO.
    pub transfer_complete :
        Covers k fuel
        → t.phase ≡ finished (ok 0)
        → t.io.alive ≡ true
        → (length t.received ≡ sectors * 2048)
          × ((st : ThreadState) × (d' : Dev) × (io_end_write k fuel t.io t.dev
                ≡ some (returned st d'))
              × ((content d' ≡ content d ++ t.received) ⊎ (st ≡ state_error)))
    transfer_complete enough e alive = elim faithful [
      | stopped v ↦ absurd (true≢false (sym alive ∙ v.is_gone))
      | lives v p h ↦
          let x = io_end_write_returns k fuel t.io t.dev enough v.ring alive in
          (all_came, (x.0, x.1, x.2, elim x.3 [ inl w ↦ inl (w ∙ v.whole) | inr z ↦ inr z ]))
    ]
      where
        all_came : length t.received ≡ sectors * 2048
        all_came = elim counted.count [
          | inl c ↦ omega (arith, c, counted.none_left e, ap (λ p. to_come p t.remaining) e)
          | inr z ↦ absurd (cc)
        ]

    -- Once the I/O thread has met an error, IOEndWrite never returns to the thread that ends the
    -- transfer.
    pub failed_transfer_hangs :
        t.io.state ≡ state_error → io_end_write k fuel t.io t.dev ≡ some hangs
    failed_transfer_hangs e = elim faithful [
      | stopped v ↦ io_end_write-hangs k fuel t.io t.dev v.is_gone v.no_ack
      | lives v p h ↦ absurd (ok≢error (sym v.is_ok ∙ e))
    ]
