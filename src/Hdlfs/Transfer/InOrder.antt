-- ===== src/Hdlfs/Transfer/InOrder.antt =====
-- hdlfs/main.c: hdlfs_io_internal transfers the next sectors of the disc image, in order.
use hdlgame_installer.Base.{
  ℕ, zero, suc, ◌+◌, ◌-◌, ◌*◌, ◌/◌, ◌%◌, ◌^◌, ◌≤◌, ◌<◌, Bool, true, false, List, [], ◌∷◌, ◌++◌,
  Option, none, some, ◌≡◌, refl, sym, ap, ap₂, subst, ◌∙◌, arith, length, length-append, Code, ok,
  err, if◌then◌else◌, ltb, is_ok, ◌⊎◌, inl, inr,
}
use Prim.Native.Nat.add
use hdlgame_installer.Hdlfs.Format.{PartSpec, u32, sub32, reserved}
use hdlgame_installer.Hdlfs.Descriptor.{Descriptor}
use hdlgame_installer.Hdlfs.Transfer.{
  Direction, Drive, span, blocks, part_sectors, room, enter, sectors_to_read, command, advance,
  io_loop, io_result, hdlfs_io_internal,
}
use hdlgame_installer.Hdlfs.Transfer.Sectors.{
  ahead_at, length-span, append_assoc, ahead_at-advance, ahead_at-next, ahead_at_bounds,
}

-- The sectors from the descriptor's position to the end of the image.
abbrev pub ahead : Descriptor → List (ℕ × ℕ)
ahead fd = ahead_at 0 fd.current_part fd.relative_sector fd.part_specs

-- The position is in its partition, in an image of at most 65 slices of less than 4 GB.
pub record IsAt (fd : Descriptor) : Type 0 where
  pub few : length fd.part_specs ≤ 65
  pub small : (i : ℕ) → part_sectors fd.part_specs i < 2 ^ 23
  pub inside : fd.relative_sector ≤ part_sectors fd.part_specs fd.current_part

sub32-exact : (a b : ℕ) → b ≤ a → a < 2 ^ 23 → sub32 a b ≡ a - b
unfolding sub32
sub32-exact a b h1 h2 = omega arith

room-IsAt :
    (fd : Descriptor)
    → IsAt fd
    → room fd ≡ part_sectors fd.part_specs fd.current_part - fd.relative_sector
unfolding room
room-IsAt fd h =
    sub32-exact (part_sectors fd.part_specs fd.current_part) fd.relative_sector h.inside
      (h.small fd.current_part)

-- Where `fd` and `to` are at the same place of the image, and `to` is in one of its partitions.
abbrev IsSame : Descriptor → Descriptor → Type 0
IsSame fd to =
    IsAt to
    × (ahead fd ≡ ahead to)
    × (to.current_part < length fd.part_specs)
    × (to.part_specs ≡ fd.part_specs)
    × (fd.current_part ≤ to.current_part)
    × (fd.current_part + 1 ≤ to.current_part + room to)

enter-IsSame : (fd : Descriptor) → IsAt fd → 0 < length (ahead fd) → IsSame fd (enter fd)
unfolding enter
enter-IsSame fd h more = test (ltb (room fd) 1) refl
  where
    specs : List PartSpec
    specs = fd.part_specs

    cur : ℕ
    cur = fd.current_part

    next : ℕ → Descriptor
    next c = record fd { current_part = c; relative_sector = 0 }

    next-IsSame : room fd < 1 → IsSame fd (next (cur + 1))
    next-IsSame empty = (
      record { few = h.few; small = h.small; inside = omega arith },
      same,
      ahead_at_bounds 0 (cur + 1) 0 specs (subst (λ xs. 0 < length xs) same more),
      refl,
      omega arith,
      omega arith,
    )
      where
        same : ahead fd ≡ ahead_at 0 (cur + 1) 0 specs
        same = ahead_at-next 0 cur fd.relative_sector specs (omega (arith, room-IsAt fd h))

    small_eq : cur + 1 < length specs → cur + 1 ≡ (cur + 1) % 2 ^ 16
    small_eq lt = omega (arith, h.few)

    test :
        (b : Bool) → ltb (room fd) 1 ≡ b → IsSame fd (if b then next ((cur + 1) % 2 ^ 16) else fd)
    test true e =
        let same : IsSame fd (next (cur + 1)) = next-IsSame (ground arith) in
        subst (λ c. IsSame fd (next c)) (small_eq same.2) same
    test false e = (
      h,
      refl,
      ahead_at_bounds 0 cur fd.relative_sector specs more,
      refl,
      omega arith,
      ground arith,
    )

advance-IsAt :
    (fd : Descriptor) (n : ℕ)
    → IsAt fd
    → fd.current_part < length fd.part_specs
    → n ≤ room fd
    → IsAt (advance fd n)
      × (ahead fd
          ≡ span fd.current_part ((reserved fd.current_part + fd.relative_sector) % u32) n
            ++ ahead (advance fd n))
advance-IsAt fd n h c le = (
  record { few = h.few; small = h.small; inside = omega (arith, fits) },
  ahead_at-advance 0 cur rel n fd.part_specs c fits
      ∙ ap₂ (λ xs r. xs ++ ahead_at 0 cur r fd.part_specs) (ap₂ (λ x y. span x y n) cur_eq first_eq)
          rel_eq,
)
  where
    cur : ℕ
    cur = fd.current_part

    rel : ℕ
    rel = fd.relative_sector

    bound : part_sectors fd.part_specs cur < 2 ^ 23
    bound = h.small cur

    fits : rel + n ≤ part_sectors fd.part_specs cur
    fits = omega (arith, room-IsAt fd h, h.inside)

    reserved_bound : (i : ℕ) → reserved i ≤ 0x2000
    reserved_bound zero = omega arith
    reserved_bound (suc i) = omega arith

    cur_eq : 0 + cur ≡ cur
    cur_eq = omega arith

    first_eq : reserved (0 + cur) + rel ≡ (reserved cur + rel) % u32
    first_eq =
        subst (λ x. reserved x + rel ≡ (reserved cur + rel) % u32) (sym cur_eq)
          (omega (arith, fits, bound, reserved_bound cur))

    rel_eq : rel + n ≡ (rel + n) % u32
    rel_eq = omega (arith, fits, bound)

append_nil : {A : Type 0} (xs : List A) → xs ≡ xs ++ []
append_nil [] = refl
append_nil (x ∷ xs) = ap (x ∷◌) (append_nil xs)

sectors_to_read-le :
    (fd : Descriptor) (m : ℕ)
    → (sectors_to_read fd m ≤ m)
      × (sectors_to_read fd m ≤ room fd)
      × ((sectors_to_read fd m ≡ m) ⊎ (sectors_to_read fd m ≡ room fd))
unfolding sectors_to_read
sectors_to_read-le fd m = ground arith

blocks-add : (at a b : ℕ) → blocks at (a + b) ≡ blocks at a ++ blocks (at + a * 512) b
blocks-add at zero b = ap₂ blocks at_eq b_eq
  where
    at_eq : at ≡ at + 0 * 512
    at_eq = omega arith

    b_eq : 0 + b ≡ b
    b_eq = omega arith
blocks-add at (suc a) b =
    ap (blocks at) (add.suc a b)
    ∙ ap (at ∷◌)
        (blocks-add (at + 512) a b ∙ ap (λ x. blocks (at + 512) a ++ blocks x b) (omega arith))

module _ (k : Drive) (mode : Direction) where
  open k use {Dev, ioctl2, touched, placed, ioctl2_ok}

  -- The sectors `xs` are the next ones of the image, and have been transferred in order, each from
  -- or to the block of 512 bytes that stands at its place in the buffer.
  pub record Moved (fd : Descriptor) (d : Dev) (buffer : ℕ) (fd' : Descriptor) (d' : Dev)
      (xs : List (ℕ × ℕ)) : Type 0 where
    pub went : touched d' ≡ touched d ++ xs
    pub put : placed d' ≡ placed d ++ blocks buffer (length xs)
    pub next : ahead fd ≡ xs ++ ahead fd'

  -- The outcome of a loop that had `remaining` sectors to go: it has not run out of fuel; when it
  -- succeeds, the next `remaining` sectors of the image have been transferred; and an error is that
  -- of the transfer which came after fewer sectors, at their end.
  abbrev Served :
      Descriptor → Dev → (buffer remaining : ℕ) → Option (Code × Descriptor × Dev) → Type 0
  Served fd d buffer remaining none = ⊥
  Served fd d buffer remaining (some (err e, fd', d')) =
      (xs : List (ℕ × ℕ)) × (before : Dev) × (n : ℕ) × Moved fd d buffer fd' before xs
      × (length xs < remaining)
      × (ioctl2 before (command fd' mode (buffer + length xs * 512) n) ≡ (err e, d'))
  Served fd d buffer remaining (some (ok n, fd', d')) =
      (xs : List (ℕ × ℕ)) × Moved fd d buffer fd' d' xs × (length xs ≡ remaining)

  -- Transfers of `ys`, then of `xs`.
  Moved-append :
      (fd to fd' : Descriptor) (d d' d2 : Dev) (buffer n : ℕ) (ys xs : List (ℕ × ℕ))
      → length ys ≡ n
      → touched d' ≡ touched d ++ ys
      → placed d' ≡ placed d ++ blocks buffer n
      → ahead fd ≡ ys ++ ahead to
      → Moved to d' (buffer + n * 512) fd' d2 xs
      → Moved fd d buffer fd' d2 (ys ++ xs)
  Moved-append fd to fd' d d' d2 buffer n ys xs len h1 h2 h3 m = record {
    went = m.went ∙ ap (λ l. l ++ xs) h1 ∙ append_assoc (touched d) ys xs;
    put =
        m.put
        ∙ ap (λ l. l ++ blocks (buffer + n * 512) (length xs)) h2
        ∙ append_assoc (placed d) (blocks buffer n) (blocks (buffer + n * 512) (length xs))
        ∙ ap (λ l. placed d ++ l)
            (sym (blocks-add buffer n (length xs))
              ∙ ap (blocks buffer) (omega (arith, length-append ys xs, len)));
    next = h3 ∙ ap (ys ++◌) m.next ∙ sym (append_assoc ys xs (ahead fd'));
  }

  -- One transfer of `ys`, then a loop for what remains.
  Served-after :
      (fd to : Descriptor) (d d' : Dev) (buffer n : ℕ) (ys : List (ℕ × ℕ)) (all : ℕ)
      → length ys ≡ n
      → n ≤ all
      → touched d' ≡ touched d ++ ys
      → placed d' ≡ placed d ++ blocks buffer n
      → ahead fd ≡ ys ++ ahead to
      → (o : Option (Code × Descriptor × Dev)) → Served to d' (buffer + n * 512) (all - n) o
      → Served fd d buffer all o
  Served-after fd to d d' buffer n ys all len le h1 h2 h3 none s = s
  Served-after fd to d d' buffer n ys all len le h1 h2 h3 (some (err e, fd', d2)) s = (
    ys ++ s.0,
    s.1,
    s.2,
    Moved-append fd to fd' d d' s.1 buffer n ys s.0 len h1 h2 h3 s.3,
    omega (arith, length-append ys s.0, len, s.4, le),
    ap (λ b. ioctl2 s.1 (command fd' mode b s.2)) (omega (arith, length-append ys s.0, len)) ∙ s.5,
  )
  Served-after fd to d d' buffer n ys all len le h1 h2 h3 (some (ok m, fd', d2)) s = (
    ys ++ s.0,
    Moved-append fd to fd' d d' d2 buffer n ys s.0 len h1 h2 h3 s.1,
    omega (arith, length-append ys s.0, len, s.2, le),
  )

  -- What one transfer of `n` sectors leaves to the rest of the loop.
  Served-one :
      (fd to : Descriptor) (d : Dev) (buffer n all : ℕ)
      → n ≤ all
      → 0 < all
      → ahead fd ≡ ahead to
      → ahead to
        ≡ span to.current_part ((reserved to.current_part + to.relative_sector) % u32) n
          ++ ahead (advance to n)
      → (c : Code × Dev) → ioctl2 d (command to mode buffer n) ≡ c
      → (rest : Option (Code × Descriptor × Dev))
      → Served (advance to n) c.1 (buffer + n * 512) (all - n) rest
      → Served fd d buffer all (if is_ok c.0 then rest else some (c.0, to, c.1))
  Served-one fd to d buffer n all le pos same eq (err x, d') e rest s = (
    [],
    d,
    n,
    record { went = append_nil (touched d); put = append_nil (placed d); next = same },
    pos,
    ap (λ b. ioctl2 d (command to mode b n)) at_start ∙ e,
  )
    where
      at_start : buffer + 0 * 512 ≡ buffer
      at_start = omega arith
  Served-one fd to d buffer n all le pos same eq (ok x, d') e rest s =
      Served-after fd (advance to n) d d' buffer n (span to.current_part first n) all
        (length-span to.current_part first n) le (ioctl2_ok d (command to mode buffer n) e).0
        (ioctl2_ok d (command to mode buffer n) e).1 (same ∙ eq) rest s
    where
      first : ℕ
      first = (reserved to.current_part + to.relative_sector) % u32

  io_loop-Served :
      (fuel : ℕ) (fd : Descriptor) (d : Dev) (buffer remaining : ℕ)
      → IsAt fd
      → remaining ≤ length (ahead fd)
      → remaining + length fd.part_specs ≤ fuel + fd.current_part
      → Served fd d buffer remaining (io_loop k fuel mode fd d buffer remaining)
  unfolding io_loop
  io_loop-Served fuel fd d buffer zero h le enough =
      ([], record { went = append_nil (touched d); put = append_nil (placed d); next = refl }, refl)
  io_loop-Served zero fd d buffer (suc m) h le enough = absurd (
      omega (
        arith,
        ahead_at_bounds 0 fd.current_part fd.relative_sector fd.part_specs (omega (arith, le)),
      ))
  io_loop-Served (suc fuel) fd d buffer (suc m) h le enough =
      Served-one fd to d buffer n (suc m) bounds.0 (omega arith) same.1 moved.1 c refl
        (io_loop k fuel mode (advance to n) c.1 (buffer + n * 512) (suc m - n))
        (io_loop-Served fuel (advance to n) c.1 (buffer + n * 512) (suc m - n) moved.0 left
          progress)
    where
      to : Descriptor
      to = enter fd

      n : ℕ
      n = sectors_to_read to (suc m)

      c : Code × Dev
      c = ioctl2 d (command to mode buffer n)

      bounds : (n ≤ suc m) × (n ≤ room to) × ((n ≡ suc m) ⊎ (n ≡ room to))
      bounds = sectors_to_read-le to (suc m)

      same : IsSame fd to
      same = enter-IsSame fd h (omega (arith, le))

      same_length : length to.part_specs ≡ length fd.part_specs
      same_length = ap length same.3

      moved :
          IsAt (advance to n)
          × (ahead to
              ≡ span to.current_part ((reserved to.current_part + to.relative_sector) % u32) n
                ++ ahead (advance to n))
      moved = advance-IsAt to n same.0 (omega (arith, same.2, same_length)) bounds.1

      parts : length (ahead fd) ≡ n + length (ahead (advance to n))
      parts =
          ap length (same.1 ∙ moved.1)
          ∙ length-append (span to.current_part first n) (ahead (advance to n))
          ∙ ap (λ x. x + length (ahead (advance to n))) (length-span to.current_part first n)
        where
          first : ℕ
          first = (reserved to.current_part + to.relative_sector) % u32

      left : suc m - n ≤ length (ahead (advance to n))
      left = omega (arith, parts, le)

      progress : suc m - n + length to.part_specs ≤ fuel + to.current_part
      progress = elim bounds.2 [
        | inl e ↦ omega (arith, e, same_length, same.4, enough)
        | inr e ↦ omega (arith, e, same_length, same.4, same.5, enough)
      ]

  -- The outcome of a request for `size` bytes: as for the loop, with `size` as the result.
  abbrev pub Transferred :
      Descriptor → Dev → (buffer size : ℕ) → Option (Code × Descriptor × Dev) → Type 0
  Transferred fd d buffer size none = ⊥
  Transferred fd d buffer size (some (err e, fd', d')) =
      Served fd d buffer (size / 512) (some (err e, fd', d'))
  Transferred fd d buffer size (some (ok n, fd', d')) =
      (n ≡ size) × Served fd d buffer (size / 512) (some (ok n, fd', d'))

  io_result-Transferred :
      (buffer size : ℕ) (fd : Descriptor) (d : Dev) (o : Option (Code × Descriptor × Dev))
      → Served fd d buffer (size / 512) o
      → Transferred fd d buffer size (io_result k size o)
  unfolding io_result
  io_result-Transferred buffer size fd d none s = s
  io_result-Transferred buffer size fd d (some (err e, fd', d')) s = s
  io_result-Transferred buffer size fd d (some (ok n, fd', d')) s = (refl, s)

  -- From a position in the image, a request of whole sectors that the rest of the image can serve
  -- comes to an end within as many rounds as there are sectors and slices to go. Either it gives
  -- `size` and has transferred exactly the next `size / 512` sectors of the image, in order and
  -- across slices, each from or to its place in the buffer, and the position is behind them; or it
  -- gives the error of a transfer of the driver, and has transferred fewer of those sectors in the
  -- same way, up to the position of the transfer that failed. The image has at most 65 slices of
  -- less than 4 GB.
  pub hdlfs_io_internal-Transferred :
      (fuel : ℕ) (fd : Descriptor) (d : Dev) (buffer size : ℕ)
      → IsAt fd
      → size % 512 ≡ 0
      → size / 512 ≤ length (ahead fd)
      → size / 512 + length fd.part_specs ≤ fuel + fd.current_part
      → Transferred fd d buffer size (hdlfs_io_internal k fuel mode (some buffer) size fd d)
  unfolding hdlfs_io_internal
  hdlfs_io_internal-Transferred fuel fd d buffer size h whole le enough = rw whole (
      io_result-Transferred buffer size fd d (io_loop k fuel mode fd d buffer (size / 512))
        (io_loop-Served fuel fd d buffer (size / 512) h le enough))
