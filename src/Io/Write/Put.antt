-- ===== src/Io/Write/Put.antt =====
-- io.c: the producer's side of the ring. What IOGetNextWrBuffer and IOSignalWriteDone add to the
-- bytes that wait.
use hdlgame_installer.Base.{
  ℕ, zero, suc, ◌+◌, ◌-◌, ◌*◌, ◌%◌, ◌≤◌, ◌<◌, List, ◌++◌, ◌≡◌, ◌≢◌, sym, subst, ap, ap₂, ◌∙◌, ◌⊎◌,
  inl, inr, Memory, slice, store, slice-store_ne, slice-store_self, length, arith, dec_lt,
}
use mathlib.Core.List.{append_assoc, append-nil}
use native.Mathlib.Nat.{mod-eq_of_lt, mod-add-mod, mod-eq-sub-mod, add-zero, mul_comm}
use hdlgame_installer.Io.State.{IoState, bank_size, set_length, signal_write_done}
use hdlgame_installer.Io.Write.Stream.{AllFull, IsPacked, Filled, chunks, pending, IsRing}

-- Fewer than `nbufs` steps round the ring do not come back to the start.
ring_ne : (nbufs p k : ℕ) → p < nbufs → suc k < nbufs → (p + suc k) % nbufs ≢ p
ring_ne nbufs p k hp hk = elim (dec_lt (p + suc k) nbufs) [
  | yes lt ↦ omega (arith, mod-eq_of_lt lt)
  | no ge ↦ omega (
    arith,
    mod-eq-sub-mod {n = p + suc k} {m = nbufs} (omega arith),
    mod-eq_of_lt {n = p + suc k - nbufs} {m = nbufs} (omega arith),
  )
]

ring_here : (nbufs p : ℕ) → p < nbufs → (p + 0) % nbufs ≡ p
ring_here nbufs p h = ap (λ x. x % nbufs) (add-zero p) ∙ mod-eq_of_lt h

-- The bank before the end of `n` banks, counted from the next bank on.
ring_next : (nbufs p n : ℕ) → (p + suc n) % nbufs ≡ ((p + 1) % nbufs + n) % nbufs
ring_next nbufs p n = rw mod-add-mod (ap (λ x. x % nbufs) (omega arith))

banks_apart :
    (bank p w len : ℕ)
    → p ≢ w
    → len ≤ bank
    → (p * bank + len ≤ w * bank) ⊎ (w * bank + bank ≤ p * bank)
banks_apart bank p w len ne le = elim (dec_lt p w) [
  | yes lt ↦ inl (grind arith)
  | no ge ↦ inr (grind arith)
]

set_length_self : (bd : ℕ → ℕ) (w n : ℕ) → set_length bd w n w ≡ n
set_length_self bd w n = ground arith

set_length_ne : (bd : ℕ → ℕ) (w n p : ℕ) → p ≢ w → set_length bd w n p ≡ bd p
set_length_ne bd w n p ne = ground arith

module _ (bd : ℕ → ℕ) (bank nbufs : ℕ) where
  module _ (w len : ℕ) (some_bytes : 0 < len) (fits : len ≤ bank) where
    put-Filled :
        (p n : ℕ)
        → p < nbufs
        → n < nbufs
        → w ≡ (p + n) % nbufs
        → AllFull bd bank nbufs p n
        → Filled (set_length bd w len) bank nbufs p (suc n)
    put-Filled p zero hp hn e f =
        let ew : w ≡ p = e ∙ ring_here nbufs p hp in
        (
          omega (arith, set_length_self bd w len, ap (set_length bd w len) ew),
          omega (arith, set_length_self bd w len, ap (set_length bd w len) ew),
        )
    put-Filled p (suc n) hp hn e f = (
      set_length_ne bd w len p (λ q. ring_ne nbufs p n hp hn (sym e ∙ sym q)) ∙ f.0,
      put-Filled ((p + 1) % nbufs) n (omega arith) (omega arith) (e ∙ ring_next nbufs p n) f.1,
    )

    put-AllFull :
        (p n : ℕ)
        → p < nbufs
        → n < nbufs
        → w ≡ (p + n) % nbufs
        → len ≡ bank
        → AllFull bd bank nbufs p n
        → AllFull (set_length bd w len) bank nbufs p (suc n)
    put-AllFull p zero hp hn e full f =
        let ew : w ≡ p = e ∙ ring_here nbufs p hp in
        (omega (arith, set_length_self bd w len, ap (set_length bd w len) ew), tt)
    put-AllFull p (suc n) hp hn e full f = (
      set_length_ne bd w len p (λ q. ring_ne nbufs p n hp hn (sym e ∙ sym q)) ∙ f.0,
      put-AllFull ((p + 1) % nbufs) n (omega arith) (omega arith) (e ∙ ring_next nbufs p n) full
          f.1,
    )

  -- Storing a chunk in bank `w`, just behind `n` queued banks, adds it to their stream.
  module _ (m : Memory) (w : ℕ) (bs : List ℕ) (fits : length bs ≤ bank) where
    put_head :
        (p : ℕ)
        → p ≢ w
        → bd p ≡ bank
        → slice (store m (w * bank) bs) (p * bank) (set_length bd w (length bs) p)
          ≡ slice m (p * bank) (bd p)
    put_head p ne full =
        ap (slice (store m (w * bank) bs) (p * bank)) (set_length_ne bd w (length bs) p ne)
        ∙ slice-store_ne m (w * bank) (p * bank) (bd p) bs
            (elim (banks_apart bank p w (bd p) ne (omega arith)) [
              | inl below ↦ inl below
              | inr above ↦ inr (omega arith)
            ])

    put_chunks :
        (p n : ℕ)
        → p < nbufs
        → n < nbufs
        → w ≡ (p + n) % nbufs
        → AllFull bd bank nbufs p n
        → chunks (store m (w * bank) bs) (set_length bd w (length bs)) bank nbufs p (suc n)
          ≡ chunks m bd bank nbufs p n ++ bs
    put_chunks p zero hp hn e f =
        let ew : p ≡ w = sym (e ∙ ring_here nbufs p hp) in
        append-nil _
        ∙ ap₂ (λ x y. slice (store m (w * bank) bs) (x * bank) y) ew
            (ap (set_length bd w (length bs)) ew ∙ set_length_self bd w (length bs))
        ∙ slice-store_self m (w * bank) bs
    put_chunks p (suc n) hp hn e f =
        ap₂ ◌++◌ (put_head p (λ q. ring_ne nbufs p n hp hn (sym e ∙ sym q)) f.0)
          (put_chunks ((p + 1) % nbufs) n (omega arith) (omega arith) (e ∙ ring_next nbufs p n) f.1)
        ∙ sym (
            append_assoc (slice m (p * bank) (bd p)) (chunks m bd bank nbufs ((p + 1) % nbufs) n)
              bs)

-- IOSignalWriteDone, after `bs` was stored in the bank that IOGetNextWrBuffer gave.
abbrev pub fill_bank : IoState → List ℕ → IoState
fill_bank s bs =
    signal_write_done (length bs)
      (record s { buffer = store s.buffer (bank_size s * s.write_ptr) bs })

module _ (s : IoState) (bs : List ℕ) (ring : IsRing s) (packed : IsPacked s) (taken : 0 < s.held)
    (some_bytes : 0 < length bs) (fits : length bs ≤ bank_size s) where
  open s use {nbufs, read_ptr, write_ptr, out_buf_sema as out}

  room : out < nbufs
  room = omega (arith, ring.permits)

  lengths : ℕ → ℕ
  lengths = set_length s.bd write_ptr (length bs)

  one_more : out + 1 ≡ suc out
  one_more = omega arith

  -- The chunk joins the end of the stream.
  pub pending-fill_bank : pending (fill_bank s bs) ≡ pending s ++ bs
  unfolding signal_write_done lengths
  pending-fill_bank =
      ap₂ (λ a n. chunks (store s.buffer a bs) lengths (bank_size s) nbufs read_ptr n)
        (mul_comm (bank_size s) write_ptr) one_more
      ∙ put_chunks s.bd (bank_size s) nbufs s.buffer write_ptr bs fits read_ptr out ring.read_in
          room ring.write_at packed

  pub fill_bank-IsRing : IsRing (fill_bank s bs)
  unfolding signal_write_done lengths
  fill_bank-IsRing = record {
    bank_pos = ring.bank_pos;
    read_in = ring.read_in;
    write_at =
        ap (λ w. (w + 1) % nbufs) ring.write_at
        ∙ mod-add-mod (read_ptr + out) nbufs 1
        ∙ ap (λ x. x % nbufs) (omega arith);
    permits = omega (arith, ring.permits);
    filled = subst (Filled lengths (bank_size s) nbufs read_ptr) (sym one_more) (
        put-Filled s.bd (bank_size s) nbufs write_ptr (length bs) some_bytes fits read_ptr out
          ring.read_in room ring.write_at packed);
  }

  pub fill_bank-IsPacked : length bs ≡ bank_size s → IsPacked (fill_bank s bs)
  unfolding signal_write_done lengths
  fill_bank-IsPacked full = subst (AllFull lengths (bank_size s) nbufs read_ptr) (sym one_more) (
      put-AllFull s.bd (bank_size s) nbufs write_ptr (length bs) some_bytes fits read_ptr out
        ring.read_in room ring.write_at full packed)
