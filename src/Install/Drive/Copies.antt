-- ===== src/Install/Drive/Copies.antt =====
-- system.c: the installer thread copies the disc from its first sector to its last, in order.
use hdlgame_installer.Base.{
  ℕ, zero, suc, ◌+◌, ◌-◌, ◌/◌, ◌%◌, ◌<◌, Bool, true, false, List, [], ◌∷◌, ◌++◌, Option, some, ◌≡◌,
  ◌≢◌, ◌⊎◌, inl, inr, dec_lt, refl, sym, ap, ◌∙◌, arith, if◌then◌else◌, ltb,
}
use hdlgame_installer.Hdlfs.Format.{u32}
use hdlgame_installer.Transfer.{io_bank_size}
use hdlgame_installer.Install.Drive.{
  Call, cd_read, signal_write_done, end_write, Status, status_ok, read_error, write_error,
  mem_error, aborted, Round, Run, calls_before, stop, sectors_of_round, signal_last, fails_write,
  finish, issue_read, body, copy_loop, installer_thread, blocked,
}
use hdlgame_installer.Install.Drive.Plan.{
  plan_of, plan-split, sectors_of_round_rest, sectors_of_round_bank,
}

-- Whether IOEndWrite is called.
abbrev pub ends_write : List Call → Bool
ends_write [] = false
ends_write (cd_read sector sectors ∷ cs) = ends_write cs
ends_write (signal_write_done bytes ∷ cs) = ends_write cs
ends_write (end_write ∷ cs) = true

-- The number of reads.
abbrev pub reads : List Call → ℕ
reads [] = 0
reads (cd_read sector sectors ∷ cs) = suc (reads cs)
reads (signal_write_done bytes ∷ cs) = reads cs
reads (end_write ∷ cs) = reads cs

ends_write-signal : (n : ℕ) (cs : List Call) → ends_write (signal_last n ++ cs) ≡ ends_write cs
ends_write-signal zero cs = refl
ends_write-signal (suc n) cs = refl

reads-signal : (n : ℕ) (cs : List Call) → reads (signal_last n ++ cs) ≡ reads cs
reads-signal zero cs = refl
reads-signal (suc n) cs = refl

-- Where a run waits for ever that began with round `k`: in IOEndWrite, or in IOGetNextWrBuffer in the
-- round behind its last read.
abbrev pub Waits : (rounds : ℕ → Round) → (returns : Bool) → (k : ℕ) → Run → Type 0
Waits rounds returns k r =
    r.ended ≡ false
    → ((ends_write r.calls ≡ true) × (returns ≡ false))
      ⊎ ((ends_write r.calls ≡ false) × ((rounds (k + reads r.calls)).is_free ≡ false))

module _ (rounds : ℕ → Round) (returns : Bool) where
  -- A run of the loop from here on: when it has succeeded, the calls are those of the plan; when it
  -- was aborted, IOEndWrite is not among them; and it waits for ever only where a call does.
  abbrev IsCopy : (k sectors_read sector remaining : ℕ) → Option Run → Type 0
  IsCopy k sectors_read sector remaining o =
      (r : Run) × (o ≡ some r)
      × (r.ended ≡ true
          → r.status ≡ status_ok
          → r.calls ≡ signal_last sectors_read ++ plan_of sector remaining)
      × (r.status ≡ aborted → ends_write r.calls ≡ false)
      × Waits rounds returns k r

  finish-IsCopy :
      (k : ℕ) (a : Round) (sectors_read sector : ℕ)
      → IsCopy k sectors_read sector 0 (finish a returns sectors_read)
  unfolding finish
  finish-IsCopy k a sectors_read sector = test a.is_read
    where
      write_status : Bool → Status
      write_status b = if b then write_error else status_ok

      read_status : Bool → Status
      read_status b = if b then read_error else status_ok

      test :
          (b : Bool)
          → IsCopy k sectors_read sector 0 (
              if b
              then some (record {
                calls = signal_last sectors_read ++ end_write ∷ [];
                status = write_status (fails_write sectors_read a.is_written);
                ended = returns;
              })
              else some (record {
                calls = end_write ∷ [];
                status = read_status returns;
                ended = returns;
              }))
      test true = (
        record {
          calls = signal_last sectors_read ++ end_write ∷ [];
          status = write_status (fails_write sectors_read a.is_written);
          ended = returns;
        },
        refl,
        λ e h. refl,
        λ h. absurd (never (fails_write sectors_read a.is_written) h),
        λ e. inl (ends_write-signal sectors_read (end_write ∷ []), e),
      )
        where
          never : (b : Bool) → write_status b ≡ aborted → ⊥
          never true h = cc
          never false h = cc
      test false = (
        record { calls = end_write ∷ []; status = read_status returns; ended = returns },
        refl,
        λ e h. absurd (never returns e h),
        λ h. absurd (not_aborted returns h),
        λ e. inl (refl, e),
      )
        where
          never : (b : Bool) → b ≡ true → read_status b ≡ status_ok → ⊥
          never true e h = cc
          never false e h = cc

          not_aborted : (b : Bool) → read_status b ≡ aborted → ⊥
          not_aborted true h = cc
          not_aborted false h = cc

-- One round, when the rest of the copy is as it should be.
module _ (rounds : ℕ → Round) (returns : Bool) (k sectors_read sector remaining next : ℕ)
    (cs : List Call)
    (split : plan_of sector remaining ≡ cd_read sector next ∷ (signal_last next ++ cs)) where
  abbrev IsRest : Option Run → Type 0
  IsRest o =
      (r : Run) × (o ≡ some r)
      × (r.ended ≡ true → r.status ≡ status_ok → r.calls ≡ signal_last next ++ cs)
      × (r.status ≡ aborted → ends_write r.calls ≡ false)
      × Waits rounds returns (k + 1) r

  -- What comes behind the call of IOSignalWriteDone.
  abbrev IsTail : Option Run → Type 0
  IsTail o =
      (r : Run) × (o ≡ some r)
      × (r.ended ≡ true → r.status ≡ status_ok → r.calls ≡ plan_of sector remaining)
      × (r.status ≡ aborted → ends_write r.calls ≡ false)
      × Waits rounds returns k r

  stop-IsTail : (s : Status) → s ≢ status_ok → IsTail (stop s)
  stop-IsTail s h = (
    record { calls = []; status = s; ended = true },
    refl,
    λ e g. absurd (h g),
    λ e. refl,
    λ e. cc,
  )

  later :
      (r : Run)
      → Waits rounds returns (k + 1) r
      → Waits rounds returns k (record r { calls = cd_read sector next ∷ r.calls })
  later r w e = elim (w e) [
    | inl h ↦ inl h
    | inr (h, f) ↦ inr (h, ap (λ n. (rounds n).is_free) (omega arith) ∙ f)
  ]

  taken_lem :
      (b : Bool) (rest : Option Run)
      → IsRest rest
      → IsTail (calls_before (cd_read sector next ∷ []) (if b then rest else stop read_error))
  taken_lem true rest (r, e, good, gone, wait) = (
    record r { calls = cd_read sector next ∷ r.calls },
    rw e refl,
    λ t h. ap (cd_read sector next ∷◌) (good t h) ∙ sym split,
    gone,
    later r wait,
  )
  taken_lem false rest ih = (
    record { calls = cd_read sector next ∷ []; status = read_error; ended = true },
    refl,
    λ e h. cc,
    λ h. refl,
    λ e. cc,
  )

  issue_read-IsTail :
      (rest : Option Run) → IsRest rest → IsTail (issue_read (rounds k) sector next rest)
  unfolding issue_read
  issue_read-IsTail rest ih = test (rounds k).is_abort
    where
      behind : Option Run
      behind =
          calls_before (cd_read sector next ∷ [])
            (if (rounds k).is_taken then rest else stop read_error)

      free : (b : Bool) → (rounds k).is_free ≡ b → IsTail (if b then behind else blocked)
      free true e = taken_lem (rounds k).is_taken rest ih
      free false e = (
        record { calls = []; status = status_ok; ended = false },
        refl,
        λ t h. cc,
        λ h. refl,
        λ t. inr (refl, ap (λ n. (rounds n).is_free) (omega arith) ∙ e),
      )

      test :
          (b : Bool)
          → IsTail (if b then stop aborted else if (rounds k).is_free then behind else blocked)
      test true = stop-IsTail aborted (λ e. cc)
      test false = free (rounds k).is_free refl

  signal-IsCopy :
      (o : Option Run)
      → IsTail o
      → IsCopy rounds returns k sectors_read sector remaining
          (calls_before (signal_last sectors_read) o)
  signal-IsCopy o (r, e, good, gone, wait) = (
    record r { calls = signal_last sectors_read ++ r.calls },
    rw e refl,
    λ t h. ap (λ xs. signal_last sectors_read ++ xs) (good t h),
    λ h. ends_write-signal sectors_read r.calls ∙ gone h,
    λ t. elim (wait t) [
      | inl (h, x) ↦ inl (ends_write-signal sectors_read r.calls ∙ h, x)
      | inr (h, x) ↦ inr (
        ends_write-signal sectors_read r.calls ∙ h,
        ap (λ n. (rounds (k + n)).is_free) (reads-signal sectors_read r.calls) ∙ x,
      )
    ],
  )

  body-IsCopy :
      (rest : Option Run)
      → IsRest rest
      → IsCopy rounds returns k sectors_read sector remaining
          (body (rounds k) sectors_read sector next rest)
  unfolding body
  body-IsCopy rest ih = test (rounds k).is_read
    where
      behind : Bool → Option Run
      behind b = if b then stop write_error else issue_read (rounds k) sector next rest

      written : (b : Bool) → IsTail (behind b)
      written true = stop-IsTail write_error (λ e. cc)
      written false = issue_read-IsTail rest ih

      test :
          (b : Bool)
          → IsCopy rounds returns k sectors_read sector remaining (
              if b
              then calls_before
                  (signal_last sectors_read)
                  (behind (fails_write sectors_read (rounds k).is_written))
              else stop read_error)
      test true =
          signal-IsCopy (behind (fails_write sectors_read (rounds k).is_written))
            (written (fails_write sectors_read (rounds k).is_written))
      test false = (
        record { calls = []; status = read_error; ended = true },
        refl,
        λ e h. cc,
        λ h. refl,
        λ e. cc,
      )

copy_loop-IsCopy :
    (rounds : ℕ → Round) (returns : Bool) (fuel k remaining sector sectors_read : ℕ)
    → remaining < fuel
    → IsCopy rounds returns k sectors_read sector remaining
        (copy_loop rounds returns fuel k remaining sector sectors_read)
unfolding copy_loop
copy_loop-IsCopy rounds returns zero k remaining sector sectors_read h = absurd (omega arith)
copy_loop-IsCopy rounds returns (suc fuel) k zero sector sectors_read h =
    finish-IsCopy rounds returns k (rounds k) sectors_read sector
copy_loop-IsCopy rounds returns (suc fuel) k (suc m) sector sectors_read h =
    let go : ltb 0 (suc m) ≡ true = ground arith in
    rw go (
      body-IsCopy rounds returns k sectors_read sector (suc m) n (plan_of (sector + n) (suc m - n))
        (plan-split sector (suc m) (suc m / io_bank_size) (suc m % io_bank_size) m refl refl refl)
        (copy_loop rounds returns fuel (k + 1) (suc m - n) (sector + n) n)
        (copy_loop-IsCopy rounds returns fuel (k + 1) (suc m - n) (sector + n) n
          (omega (arith, positive (suc m) (omega arith)))))
  where
    n : ℕ
    n = sectors_of_round (suc m)

    positive : (x : ℕ) → 0 < x → 0 < sectors_of_round x
    positive x h = elim (dec_lt x 256) [
      | yes p ↦ omega (arith, sectors_of_round_rest x p)
      | no p ↦ omega (arith, sectors_of_round_bank x)
    ]

-- The installer thread ends, or waits for ever: in an IOEndWrite that it has called and that does
-- not return, or in the IOGetNextWrBuffer of the round behind its last read. When it ends with the
-- status of success, it has made the calls of the plan and no others: each run of 256 sectors from
-- sector 0 on, and the rest, read and handed over in their order, then IOEndWrite. When it was
-- aborted, it has not called IOEndWrite.
pub installer_thread-IsCopy :
    (allocated started : Bool) (rounds : ℕ → Round) (returns : Bool) (layer0 layer1 : ℕ)
    → (r : Run) × (installer_thread allocated started rounds returns layer0 layer1 ≡ some r)
      × (r.ended ≡ true → r.status ≡ status_ok → r.calls ≡ plan_of 0 ((layer0 + layer1) % u32))
      × (r.status ≡ aborted → ends_write r.calls ≡ false)
      × Waits rounds returns 0 r
unfolding installer_thread
installer_thread-IsCopy false started rounds returns layer0 layer1 =
    (record { calls = []; status = mem_error; ended = true }, refl, λ e h. cc, λ h. refl, λ e. cc)
installer_thread-IsCopy true false rounds returns layer0 layer1 =
    (record { calls = []; status = mem_error; ended = true }, refl, λ e h. cc, λ h. refl, λ e. cc)
installer_thread-IsCopy true true rounds returns layer0 layer1 =
    copy_loop-IsCopy rounds returns ((layer0 + layer1) % u32 + 1) 0 ((layer0 + layer1) % u32) 0 0
      (omega arith)
