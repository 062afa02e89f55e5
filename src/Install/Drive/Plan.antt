-- ===== src/Install/Drive/Plan.antt =====
-- system.c: the calls of a whole copy, and how they begin.
use hdlgame_installer.Base.{
  ℕ, zero, suc, ◌+◌, ◌-◌, ◌*◌, ◌/◌, ◌%◌, ◌≤◌, ◌<◌, List, [], ◌∷◌, ◌++◌, ◌≡◌, refl, arith,
}
use hdlgame_installer.Transfer.{io_bank_size}
use hdlgame_installer.Install.Drive.{
  Call, cd_read, signal_write_done, end_write, sectors_of_round, signal_last,
}

-- The calls of a whole copy: `banks` full banks, then the rest, each read and then handed over, and
-- the end.
abbrev pub plan : (sector banks rest : ℕ) → List Call
plan sector zero zero = end_write ∷ []
plan sector zero (suc n) =
    cd_read sector (suc n) ∷ signal_write_done (suc n * 2048) ∷ end_write ∷ []
plan sector (suc banks) rest =
    cd_read sector io_bank_size
    ∷ signal_write_done (io_bank_size * 2048)
    ∷ plan (sector + io_bank_size) banks rest

abbrev pub plan_of : (sector remaining : ℕ) → List Call
plan_of sector remaining = plan sector (remaining / io_bank_size) (remaining % io_bank_size)

pub sectors_of_round_rest :
    (remaining : ℕ) → remaining < 256 → sectors_of_round remaining ≡ remaining
unfolding sectors_of_round
sectors_of_round_rest remaining h = ground arith

pub sectors_of_round_bank : (remaining : ℕ) → 256 ≤ remaining → sectors_of_round remaining ≡ 256
unfolding sectors_of_round
sectors_of_round_bank remaining h = ground arith

pub plan-split :
    (sector remaining banks rest k : ℕ)
    → remaining / io_bank_size ≡ banks
    → remaining % io_bank_size ≡ rest
    → remaining ≡ suc k
    → plan sector banks rest
      ≡ cd_read sector (sectors_of_round remaining)
        ∷ (signal_last (sectors_of_round remaining)
            ++ plan_of
                (sector + sectors_of_round remaining)
                (remaining - sectors_of_round remaining))
plan-split sector remaining zero zero k hb hr e = absurd (omega arith)
plan-split sector remaining zero (suc n) k hb hr e = rw (all, over) refl
  where
    all : sectors_of_round remaining ≡ suc n
    all = omega (arith, sectors_of_round_rest remaining)

    over : remaining - suc n ≡ 0
    over = omega arith
plan-split sector remaining (suc banks) rest k hb hr e = rw (full, tail_banks, tail_rest) refl
  where
    full : sectors_of_round remaining ≡ 256
    full = sectors_of_round_bank remaining (omega arith)

    tail_banks : (remaining - 256) / io_bank_size ≡ banks
    tail_banks = omega arith

    tail_rest : (remaining - 256) % io_bank_size ≡ rest
    tail_rest = omega arith
