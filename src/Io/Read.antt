-- ===== src/Io/Read.antt =====
-- io.c, the reading side of the I/O thread: IOExecReadNext.
use hdlgame_installer.Base.{
  ℕ, zero, suc, ◌+◌, ◌-◌, ◌*◌, ◌%◌, min, List, Option, none, some, Code, ok, err, if◌then◌else◌,
  store,
}
use hdlgame_installer.Io.State.{IoState, bank_size, set_length}
use hdlgame_installer.Io.Device.{File, must_retry}

-- The loop's variables: PollSema's count, the lengths in IOState.bd, sectorsTotal and
-- partitionsCleared.
pub record Fill : Type 0 where
  pub sema : ℕ
  pub bd : ℕ → ℕ
  pub total : ℕ
  pub cleared : ℕ

-- The `for` that takes further banks up to the end of the ring, as long as sectors remain.
unfoldable pub fill : (bufmax remaining rounds next_write_ptr : ℕ) → Fill → Fill
fill bufmax remaining zero next f = f
fill bufmax remaining (suc rounds) next f = elim (remaining - f.total) [
  | zero ↦ f
  | suc left ↦ elim f.sema [
    | zero ↦ f
    | suc sema ↦ fill bufmax remaining rounds (next + 1) (record {
      sema = sema;
      bd = set_length f.bd next (min (suc left) bufmax * 2048);
      total = f.total + min (suc left) bufmax;
      cleared = f.cleared + 1;
    })
  ]
]

-- The banks of one round, once PollSema has taken one of the `suc sema` permits.
unfoldable pub filled_from : IoState → ℕ → Fill
unfolding fill
filled_from s sema =
    fill s.bufmax s.remaining (s.nbufs - (s.write_ptr + 1)) (s.write_ptr + 1) (record {
      sema = sema;
      bd = set_length s.bd s.write_ptr (min s.remaining s.bufmax * 2048);
      total = min s.remaining s.bufmax;
      cleared = 1;
    })

-- Update of the state after fileXioRead. The lengths are set, and the permits taken, either way.
unfoldable pub advance_write : IoState → Fill → Code → List ℕ → IoState
advance_write s f (ok n) bs = record s {
  buffer = store s.buffer (s.write_ptr * bank_size s) bs;
  bd = f.bd;
  write_ptr = (s.write_ptr + f.cleared) % s.nbufs;
  in_buf_sema = f.sema;
  out_buf_sema = s.out_buf_sema + f.cleared;
  remaining = s.remaining - f.total;
}
advance_write s f (err e) bs = record s { bd = f.bd; in_buf_sema = f.sema }

module _ (k : File) where
  open k use {Dev, read}

  -- `do { result = fileXioRead(…); } while (result < 0 && result != -EIO);`
  unfoldable pub read_retry : ℕ → Dev → ℕ → Option (Code × List ℕ × Dev)
  read_retry zero d len = none
  read_retry (suc fuel) d len =
      let (r, bs, d') = read d len in
      let again : Option (Code × List ℕ × Dev) = read_retry fuel d' len in
      if must_retry r then again else some (r, bs, d')

  -- IOExecReadNext: `rounds` bounds the `while`, `fuel` each run of retries. A failed read ends
  -- no round: the loop goes on as long as PollSema finds a permit.
  unfoldable pub read_loop :
      (rounds fuel : ℕ) → Code → IoState → Dev → Option (Code × IoState × Dev)
  unfolding advance_write filled_from
  read_loop zero fuel r s d = none
  read_loop (suc rounds) fuel r s d = elim s.remaining [
    | zero ↦ some (r, s, d)
    | suc left ↦ elim s.in_buf_sema [
      | zero ↦ some (r, s, d)
      | suc n ↦
          let f = filled_from s n in
          elim (read_retry fuel d (f.total * 2048)) [
            | none ↦ none
            | some (r', bs, d') ↦ read_loop rounds fuel r' (advance_write s f r' bs) d'
          ]
    ]
  ]

  -- Each round takes a permit, so one more round than there are permits is enough.
  unfoldable pub exec_read_next : ℕ → IoState → Dev → Option (Code × IoState × Dev)
  unfolding read_loop
  exec_read_next fuel s d = read_loop (s.in_buf_sema + 1) fuel (ok 0) s d
