-- ===== src/Tests/Disks.antt =====
-- Two files: one that takes every write, and one whose writes fail.
use hdlgame_installer.Base.{
  ℕ, true, List, [], ◌++◌, ◌≡◌, refl, sym, ap, ◌∙◌, subst, length, Code, ok, err, Errno, eio,
}
use mathlib.Core.List.{append-nil}
use hdlgame_installer.Io.Device.{File, must_retry}

abbrev pub good_write : List ℕ → List ℕ → Code × List ℕ
good_write d bs = (ok (length bs), d ++ bs)

pub good_write_ok :
    (d : List ℕ) (bs : List ℕ) {n : ℕ} {d' : List ℕ}
    → good_write d bs ≡ (ok n, d')
    → (n ≡ length bs) × (d' ≡ d ++ bs)
good_write_ok d bs e = (cc, cc)

pub good_write_eio :
    (d : List ℕ) (bs : List ℕ) {d' : List ℕ}
    → good_write d bs ≡ (err eio, d')
    → (part : List ℕ) × (rest : List ℕ) × (part ++ rest ≡ bs) × (d' ≡ d ++ part)
good_write_eio d bs e = absurd (cc)

pub good_write_refused :
    (d : List ℕ) (bs : List ℕ) {e : Errno} {d' : List ℕ}
    → good_write d bs ≡ (err e, d')
    → must_retry (err e) ≡ true
    → d' ≡ d
good_write_refused d bs e h = cc

abbrev pub bad_write : List ℕ → List ℕ → Code × List ℕ
bad_write d bs = (err eio, d)

pub bad_write_ok :
    (d : List ℕ) (bs : List ℕ) {n : ℕ} {d' : List ℕ}
    → bad_write d bs ≡ (ok n, d')
    → (n ≡ length bs) × (d' ≡ d ++ bs)
bad_write_ok d bs e = absurd (cc)

pub bad_write_eio :
    (d : List ℕ) (bs : List ℕ) {d' : List ℕ}
    → bad_write d bs ≡ (err eio, d')
    → (part : List ℕ) × (rest : List ℕ) × (part ++ rest ≡ bs) × (d' ≡ d ++ part)
bad_write_eio d bs e = ([], bs, refl, sym (ap (λ p. p.1) e) ∙ sym (append-nil d))

retries_not_eio : {e : Errno} → ◌≡◌ {A = Code} (err eio) (err e) → must_retry (err e) ≡ true → ⊥
unfolding must_retry
retries_not_eio q h =
    let h' : must_retry (err eio) ≡ true = subst (λ c. must_retry c ≡ true) (sym q) h in cc

pub bad_write_refused :
    (d : List ℕ) (bs : List ℕ) {e : Errno} {d' : List ℕ}
    → bad_write d bs ≡ (err e, d')
    → must_retry (err e) ≡ true
    → d' ≡ d
bad_write_refused d bs e h = absurd (retries_not_eio (ap (λ p. p.0) e) h)

pub read_never_ok :
    (d : List ℕ) (len : ℕ) {n : ℕ} {bs d' : List ℕ}
    → ◌≡◌ {A = Code × List ℕ × List ℕ} (err eio, [], d) (ok n, bs, d')
    → (length bs ≡ len) × (d ≡ bs ++ d')
read_never_ok d len e = cc

pub read_never_err :
    (d : List ℕ) (len : ℕ) {x : Errno} {bs d' : List ℕ}
    → ◌≡◌ {A = Code × List ℕ × List ℕ} (err eio, [], d) (err x, bs, d')
    → d' ≡ d
read_never_err d len e = cc

abbrev pub good_disk : File
good_disk = record {
  Dev = List ℕ;
  write = good_write;
  read = λ d len. (err eio, [], d);
  content = λ d. d;
  ahead = λ d. d;
  write_ok = good_write_ok;
  write_eio = good_write_eio;
  write_refused = good_write_refused;
  read_ok = read_never_ok;
  read_err = read_never_err;
}

abbrev pub bad_disk : File
bad_disk = record {
  Dev = List ℕ;
  write = bad_write;
  read = λ d len. (err eio, [], d);
  content = λ d. d;
  ahead = λ d. d;
  write_ok = bad_write_ok;
  write_eio = bad_write_eio;
  write_refused = bad_write_refused;
  read_ok = read_never_ok;
  read_err = read_never_err;
}
