-- ===== src/Io/Device.antt =====
-- The file behind IOState.ioFD. fileXioWrite and fileXioRead belong to the PS2 SDK: they are the
-- fields of a record, with what io.c relies on as its laws.
use hdlgame_installer.Base.{
  ℕ, Bool, true, false, List, ◌++◌, ◌≡◌, length, Code, ok, err, Errno, eio,
}

-- `result < 0 && result != -EIO`
unfoldable pub must_retry : Code → Bool
must_retry (ok n) = false
must_retry (err e) = elim e [ eio ↦ false | _ ↦ true ]

-- A fileXioWrite that succeeds has written all the bytes that it was given, after those that stood
-- there. One that fails with -EIO, a failure of the disc, may have written a beginning of them, since
-- hdlfs makes several transfers of one request; with any other error, which io.c answers by the same
-- write again, it was refused before anything was written. A fileXioRead that
-- succeeds gives all the bytes that it was asked for, the next ones of the file, and one that fails
-- leaves the file where it was.
pub record File : Type 1 where
  pub Dev : Type 0
  pub write : Dev → List ℕ → Code × Dev
  pub read : Dev → ℕ → Code × List ℕ × Dev
  pub content : Dev → List ℕ
  pub ahead : Dev → List ℕ
  pub write_ok :
      (d : Dev) (bs : List ℕ) {n : ℕ} {d' : Dev}
      → write d bs ≡ (ok n, d')
      → (n ≡ length bs) × (content d' ≡ content d ++ bs)
  pub write_eio :
      (d : Dev) (bs : List ℕ) {d' : Dev}
      → write d bs ≡ (err eio, d')
      → (part : List ℕ) × (rest : List ℕ) × (part ++ rest ≡ bs) × (content d' ≡ content d ++ part)
  pub write_refused :
      (d : Dev) (bs : List ℕ) {e : Errno} {d' : Dev}
      → write d bs ≡ (err e, d')
      → must_retry (err e) ≡ true
      → content d' ≡ content d
  pub read_ok :
      (d : Dev) (len : ℕ) {n : ℕ} {bs : List ℕ} {d' : Dev}
      → read d len ≡ (ok n, bs, d')
      → (length bs ≡ len) × (ahead d ≡ bs ++ ahead d')
  pub read_err :
      (d : Dev) (len : ℕ) {e : Errno} {bs : List ℕ} {d' : Dev}
      → read d len ≡ (err e, bs, d')
      → ahead d' ≡ ahead d
