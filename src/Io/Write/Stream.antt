-- ===== src/Io/Write/Stream.antt =====
-- io.c: the banks that wait in the ring, as one stream of bytes, and what IOExecWriteNext writes
-- of it. One call to fileXioWrite takes several banks from the first address on, so it relies on
-- every bank but the last being full.
use hdlgame_installer.Base.{
  ℕ, zero, suc, ◌+◌, ◌-◌, ◌*◌, ◌%◌, ◌≤◌, ◌<◌, List, [], ◌++◌, Option, none, some, ◌≡◌, refl, sym,
  ap, ◌∙◌, subst, ◌⊎◌, inl, inr, Code, ok, err, Errno, if◌then◌else◌, Memory, slice, length,
  slice-add, length-slice, arith,
}
use mathlib.Core.List.{append_assoc}
use native.Mathlib.Nat.{mod-eq_of_lt, mod-add-mod}
use hdlgame_installer.Io.State.{IoState, bank_size}
use hdlgame_installer.Io.Device.{File, must_retry}
use hdlgame_installer.Io.Write.{
  gather, gathered, advance_read, write_retry, write_finish, exec_write_at, exec_write_next,
}

module _ (bd : ℕ → ℕ) (bank nbufs : ℕ) where
  -- Of the `n` banks from bank `p` on, all but the last are full, and the last is not empty.
  abbrev pub Filled : (p n : ℕ) → Type 0
  Filled p zero = Unit {0}
  Filled p (suc zero) = (0 < bd p) × (bd p ≤ bank)
  Filled p (suc (suc n)) = (bd p ≡ bank) × Filled ((p + 1) % nbufs) (suc n)

  pub Filled-tail : (p n : ℕ) → Filled p (suc n) → Filled ((p + 1) % nbufs) n
  Filled-tail p zero f = tt
  Filled-tail p (suc n) f = f.1

  Filled-head : (p n : ℕ) → Filled p (suc n) → (n ≡ 0) ⊎ (bd p ≡ bank)
  Filled-head p zero f = inl refl
  Filled-head p (suc n) f = inr f.0

  Filled-pos : (p n : ℕ) → 0 < bank → Filled p (suc n) → 0 < bd p
  Filled-pos p zero h f = f.0
  Filled-pos p (suc n) h f = omega (arith, f.0)

module _ (m : Memory) (bd : ℕ → ℕ) (bank nbufs : ℕ) where
  -- The bytes of the `n` banks from bank `p` on, round the ring.
  abbrev pub chunks : (p n : ℕ) → List ℕ
  chunks p zero = []
  chunks p (suc n) = slice m (p * bank) (bd p) ++ chunks ((p + 1) % nbufs) n

  -- One more bank joins the run that starts at address `a`.
  chunk_joins :
      (a q to_write n : ℕ)
      → a + to_write ≡ q * bank
      → slice m a (to_write + bd q) ++ chunks ((q + 1) % nbufs) n
        ≡ slice m a to_write ++ chunks q (suc n)
  chunk_joins a q to_write n e =
      rw (slice-add m a to_write (bd q), e)
        (append_assoc (slice m a to_write) (slice m (q * bank) (bd q)) (chunks ((q + 1) % nbufs) n))

  -- From bank `q` on, the run that `gather` finds and the banks behind it are what was queued.
  gather_stream :
      (rounds q sema to_write cleared a r : ℕ)
      → q + rounds ≡ nbufs
      → (sema ≡ 0) ⊎ (a + to_write ≡ q * bank)
      → Filled bd bank nbufs (q % nbufs) sema
      → q + (gather bd rounds q sema to_write cleared).cleared ≡ r + cleared
      → let g = gather bd rounds q sema to_write cleared in
        slice m a g.to_write ++ chunks (r % nbufs) g.sema
        ≡ slice m a to_write ++ chunks (q % nbufs) sema
  unfolding gather
  gather_stream zero q sema to_write cleared a r e1 e2 f e3 =
      ap (λ k. slice m a to_write ++ chunks (k % nbufs) sema) (omega arith)
  gather_stream (suc rounds) q zero to_write cleared a r e1 e2 f e3 = refl
  gather_stream (suc rounds) q (suc sema) to_write cleared a r e1 e2 f e3 =
      let at : q % nbufs ≡ q = mod-eq_of_lt {n = q} {m = nbufs} (omega arith) in
      let f' : Filled bd bank nbufs q (suc sema) = rw at at f in
      let here : a + to_write ≡ q * bank = elim e2 [ inl z ↦ absurd (omega arith) | inr h ↦ h ] in
      let next : (sema ≡ 0) ⊎ (a + (to_write + bd q) ≡ (q + 1) * bank) =
        elim (Filled-head bd bank nbufs q sema f') [
          | inl z ↦ inl z
          | inr full ↦ inr (omega arith)
        ] in
      rw at (
        gather_stream rounds (q + 1) sema (to_write + bd q) (cleared + 1) a r (omega arith) next
          (Filled-tail bd bank nbufs q sema f') (omega arith)
        ∙ chunk_joins a q to_write sema here)

gather_count :
    (bd : ℕ → ℕ) (rounds q sema to_write cleared : ℕ)
    → let g = gather bd rounds q sema to_write cleared in g.sema + g.cleared ≡ sema + cleared
unfolding gather
gather_count bd zero q sema to_write cleared = refl
gather_count bd (suc rounds) q zero to_write cleared = refl
gather_count bd (suc rounds) q (suc sema) to_write cleared =
    omega (arith, gather_count bd rounds (q + 1) sema (to_write + bd q) (cleared + 1))

gather_grows :
    (bd : ℕ → ℕ) (rounds q sema to_write cleared : ℕ)
    → 0 < cleared
    → 0 < (gather bd rounds q sema to_write cleared).cleared
unfolding gather
gather_grows bd zero q sema to_write cleared h = h
gather_grows bd (suc rounds) q zero to_write cleared h = h
gather_grows bd (suc rounds) q (suc sema) to_write cleared h =
    gather_grows bd rounds (q + 1) sema (to_write + bd q) (cleared + 1) (omega arith)

to_write-gather :
    (bd : ℕ → ℕ) (rounds q sema to_write cleared : ℕ)
    → to_write ≤ (gather bd rounds q sema to_write cleared).to_write
unfolding gather
to_write-gather bd zero q sema to_write cleared = omega arith
to_write-gather bd (suc rounds) q zero to_write cleared = omega arith
to_write-gather bd (suc rounds) q (suc sema) to_write cleared =
    omega (arith, to_write-gather bd rounds (q + 1) sema (to_write + bd q) (cleared + 1))

-- What holds of a queue and of its tails holds of what `gather` leaves.
gather_tail :
    (P : ℕ → ℕ → Type 0) (bd : ℕ → ℕ) (nbufs rounds q sema to_write cleared r : ℕ)
    → ((p n : ℕ) → P p (suc n) → P ((p + 1) % nbufs) n)
    → q + rounds ≡ nbufs
    → P (q % nbufs) sema
    → q + (gather bd rounds q sema to_write cleared).cleared ≡ r + cleared
    → P (r % nbufs) (gather bd rounds q sema to_write cleared).sema
unfolding gather
gather_tail P bd nbufs zero q sema to_write cleared r tail e1 f e3 =
    subst (λ k. P (k % nbufs) sema) (omega arith) f
gather_tail P bd nbufs (suc rounds) q zero to_write cleared r tail e1 f e3 =
    subst (λ k. P (k % nbufs) 0) (omega arith) f
gather_tail P bd nbufs (suc rounds) q (suc sema) to_write cleared r tail e1 f e3 =
    let at : q % nbufs ≡ q = mod-eq_of_lt {n = q} {m = nbufs} (omega arith) in
    gather_tail P bd nbufs rounds (q + 1) sema (to_write + bd q) (cleared + 1) r tail (omega arith)
      (tail q sema (rw at at f)) (omega arith)

-- The `n` banks from bank `p` on are all full.
abbrev pub AllFull : (bd : ℕ → ℕ) (bank nbufs p n : ℕ) → Type 0
AllFull bd bank nbufs p zero = Unit {0}
AllFull bd bank nbufs p (suc n) = (bd p ≡ bank) × AllFull bd bank nbufs ((p + 1) % nbufs) n

-- The queued banks are all full.
abbrev pub IsPacked : IoState → Type 0
IsPacked s = AllFull s.bd (bank_size s) s.nbufs s.read_ptr s.out_buf_sema

-- The bytes that wait to be written.
abbrev pub pending : IoState → List ℕ
pending s = chunks s.buffer s.bd (bank_size s) s.nbufs s.read_ptr s.out_buf_sema

-- The ring's invariant while the thread runs.
pub record IsRing (s : IoState) : Type 0 where
  pub bank_pos : 0 < s.bufmax
  pub read_in : s.read_ptr < s.nbufs
  pub write_at : s.write_ptr ≡ (s.read_ptr + s.out_buf_sema) % s.nbufs
  pub permits : s.in_buf_sema + s.out_buf_sema + s.held ≡ s.nbufs
  pub filled : Filled s.bd (bank_size s) s.nbufs s.read_ptr s.out_buf_sema

-- What the reading end of the ring leaves alone.
pub record Unchanged (s s' : IoState) : Type 0 where
  pub same_nbufs : s'.nbufs ≡ s.nbufs
  pub same_bufmax : s'.bufmax ≡ s.bufmax
  pub same_command : s'.command ≡ s.command
  pub same_held : s'.held ≡ s.held
  pub same_state : s'.state ≡ s.state
  pub same_alive : s'.alive ≡ s.alive
  pub same_ack : s'.cmd_ack_sema ≡ s.cmd_ack_sema
  pub same_remaining : s'.remaining ≡ s.remaining
  pub fewer : s'.out_buf_sema ≤ s.out_buf_sema

module _ (k : File) where
  open k use {Dev, write, content, write_ok, write_eio, write_refused}

  -- What a run of retries has written, by how it ended.
  abbrev Wrote : Dev → List ℕ → Option (Code × Dev) → Type 0
  Wrote d bs none = Unit
  Wrote d bs (some (ok n, d')) = (n ≡ length bs) × (content d' ≡ content d ++ bs)
  Wrote d bs (some (err e, d')) =
      (part : List ℕ) × (rest : List ℕ) × (part ++ rest ≡ bs) × (content d' ≡ content d ++ part)

  Wrote-from :
      {d d' : Dev} (bs : List ℕ) (o : Option (Code × Dev))
      → content d' ≡ content d
      → Wrote d' bs o
      → Wrote d bs o
  Wrote-from bs none e w = tt
  Wrote-from bs (some (ok n, d')) e w = (w.0, w.1 ∙ ap (λ c. c ++ bs) e)
  Wrote-from bs (some (err x, d')) e w = (w.0, w.1, w.2, w.3 ∙ ap (λ c. c ++ w.0) e)

  retry_case :
      (fuel : ℕ) (d : Dev) (bs : List ℕ) (r : Code) (d' : Dev)
      → write d bs ≡ (r, d')
      → Wrote d' bs (write_retry k fuel d' bs)
      → Wrote d bs (if must_retry r then write_retry k fuel d' bs else some (r, d'))
  unfolding must_retry
  retry_case fuel d bs (ok n) d' e w = write_ok d bs e
  retry_case fuel d bs (err Errno.eio) d' e w = write_eio d bs e
  retry_case fuel d bs (err x) d' e w =
      Wrote-from bs (write_retry k fuel d' bs) (write_refused d bs e refl) w

  write_retry-Wrote : (fuel : ℕ) (d : Dev) (bs : List ℕ) → Wrote d bs (write_retry k fuel d bs)
  unfolding write_retry
  write_retry-Wrote zero d bs = tt
  write_retry-Wrote (suc fuel) d bs =
      retry_case fuel d bs (write d bs).0 (write d bs).1 refl
        (write_retry-Wrote fuel (write d bs).1 bs)

  gathered_count : (s : IoState) (n : ℕ) → (gathered s n).sema + (gathered s n).cleared ≡ n + 1
  gathered_count s n =
      gather_count s.bd (s.nbufs - (s.read_ptr + 1)) (s.read_ptr + 1) n (s.bd s.read_ptr) 1

  gathered_some : (s : IoState) (n : ℕ) → 0 < (gathered s n).cleared
  gathered_some s n =
      gather_grows s.bd (s.nbufs - (s.read_ptr + 1)) (s.read_ptr + 1) n (s.bd s.read_ptr) 1
        (omega arith)

  -- The bytes of one fileXioWrite, and what stays queued behind them.
  gathered_stream :
      (s : IoState) (n : ℕ)
      → s.out_buf_sema ≡ suc n
      → IsRing s
      → let g = gathered s n in
        slice s.buffer (s.read_ptr * bank_size s) g.to_write
          ++ chunks s.buffer s.bd (bank_size s) s.nbufs ((s.read_ptr + g.cleared) % s.nbufs) g.sema
        ≡ pending s
  gathered_stream s n e v =
      gather_stream s.buffer s.bd bank nbufs (nbufs - (at + 1)) (at + 1) n (s.bd at) 1 (at * bank)
        (at + (gathered s n).cleared) (omega (arith, v.read_in))
        (elim (Filled-head s.bd bank nbufs at n full) [ inl z ↦ inl z | inr h ↦ inr (omega arith) ])
        (Filled-tail s.bd bank nbufs at n full) (omega arith)
      ∙ ap (chunks s.buffer s.bd bank nbufs at) (sym e)
    where
      open s use {nbufs, read_ptr as at}

      bank : ℕ
      bank = bank_size s

      full : Filled s.bd bank nbufs at (suc n)
      full = subst (Filled s.bd bank nbufs at) e v.filled

  gathered_tail :
      (P : ℕ → ℕ → Type 0) (s : IoState) (n : ℕ)
      → s.out_buf_sema ≡ suc n
      → IsRing s
      → ((p n : ℕ) → P p (suc n) → P ((p + 1) % s.nbufs) n)
      → P s.read_ptr s.out_buf_sema
      → P ((s.read_ptr + (gathered s n).cleared) % s.nbufs) (gathered s n).sema
  gathered_tail P s n e v tail f =
      gather_tail P s.bd s.nbufs (s.nbufs - (s.read_ptr + 1)) (s.read_ptr + 1) n (s.bd s.read_ptr) 1
        (s.read_ptr + (gathered s n).cleared) tail (omega (arith, v.read_in))
        (tail s.read_ptr n (subst (P s.read_ptr) e f)) (omega arith)

  gathered-IsRing :
      (s : IoState) (n m : ℕ)
      → s.out_buf_sema ≡ suc n
      → IsRing s
      → IsRing (advance_read s (gathered s n) (ok m))
  unfolding advance_read
  gathered-IsRing s n m e v = record {
    bank_pos = v.bank_pos;
    read_in = omega (arith, v.read_in);
    write_at =
        v.write_at
        ∙ ap (λ x. x % s.nbufs) (omega (arith, gathered_count s n))
        ∙ sym (mod-add-mod (s.read_ptr + (gathered s n).cleared) s.nbufs (gathered s n).sema);
    permits = omega (arith, v.permits, gathered_count s n);
    filled =
        gathered_tail (Filled s.bd (bank_size s) s.nbufs) s n e v
          (Filled-tail s.bd (bank_size s) s.nbufs) v.filled;
  }

  gathered_pos :
      (s : IoState) (n : ℕ) → s.out_buf_sema ≡ suc n → IsRing s → 0 < (gathered s n).to_write
  gathered_pos s n e v = omega (
    arith,
    to_write-gather s.bd (s.nbufs - (s.read_ptr + 1)) (s.read_ptr + 1) n (s.bd s.read_ptr) 1,
    Filled-pos s.bd (bank_size s) s.nbufs s.read_ptr n (omega (arith, v.bank_pos))
        (subst (Filled s.bd (bank_size s) s.nbufs s.read_ptr) e v.filled),
  )

  -- What a call of IOExecWriteNext has done, begun at file `d` with `queued` in the ring.
  abbrev pub Moved : IoState → Dev → List ℕ → Option (Code × IoState × Dev) → Type 0
  Moved s d queued none = Unit
  Moved s d queued (some (ok n, s', d')) =
      (content d' ++ pending s' ≡ content d ++ queued)
      × IsRing s'
      × Unchanged s s'
      × (IsPacked s → IsPacked s')
      × (n ≡ 0 → s.out_buf_sema ≡ 0)
      × (0 < n → s'.out_buf_sema < s.out_buf_sema)
  Moved s d queued (some (err x, s', d')) =
      (rest : List ℕ) × (content d' ++ rest ≡ content d ++ queued)
      × (s'.cmd_ack_sema ≡ s.cmd_ack_sema)

  finish-Moved :
      (s : IoState) (n : ℕ) (d : Dev) (o : Option (Code × Dev))
      → s.out_buf_sema ≡ suc n
      → IsRing s
      → Wrote d (slice s.buffer (s.read_ptr * bank_size s) (gathered s n).to_write) o
      → Moved s d (pending s) (write_finish k s (gathered s n) o)
  unfolding write_finish advance_read
  finish-Moved s n d none e v w = tt
  finish-Moved s n d (some (err x, d1)) e v w =
      let left =
        chunks s.buffer s.bd (bank_size s) s.nbufs ((s.read_ptr + (gathered s n).cleared) % s.nbufs)
          (gathered s n).sema in
      (
        w.1 ++ left,
        ap (λ c. c ++ (w.1 ++ left)) w.3
            ∙ append_assoc (content d) w.0 (w.1 ++ left)
            ∙ ap (λ t. content d ++ t)
                (sym (append_assoc w.0 w.1 left)
                  ∙ ap (λ t. t ++ left) w.2
                  ∙ gathered_stream s n e v),
        refl,
      )
  finish-Moved s n d (some (ok m, d1)) e v w = (
    rw (w.1, append_assoc (content d)) (ap (λ t. content d ++ t) (gathered_stream s n e v)),
    gathered-IsRing s n m e v,
    ground (arith, gathered_count s n),
    gathered_tail (AllFull s.bd (bank_size s) s.nbufs) s n e v (λ p i f. f.1),
    λ z. absurd (
        omega (
          arith,
          w.0,
          length-slice s.buffer (s.read_ptr * bank_size s) (gathered s n).to_write,
          gathered_pos s n e v,
        )),
    λ _. omega (arith, gathered_count s n, gathered_some s n),
  )

  exec_write_at-Moved :
      (fuel : ℕ) (s : IoState) (d : Dev) (o : ℕ)
      → s.out_buf_sema ≡ o
      → IsRing s
      → Moved s d (pending s) (exec_write_at k fuel s d o)
  unfolding exec_write_at
  exec_write_at-Moved fuel s d zero e v =
      (refl, v, ground arith, λ f. f, λ _. e, λ p. absurd (omega arith))
  exec_write_at-Moved fuel s d (suc n) e v = finish-Moved s n d _ e v (write_retry-Wrote fuel d _)

  -- A call of IOExecWriteNext moves bytes from the ring to the file and changes no byte and no
  -- order.
  pub exec_write_next-Moved :
      (fuel : ℕ) (s : IoState) (d : Dev)
      → IsRing s
      → Moved s d (pending s) (exec_write_next k fuel s d)
  unfolding exec_write_next
  exec_write_next-Moved fuel s d v = exec_write_at-Moved fuel s d s.out_buf_sema refl v
