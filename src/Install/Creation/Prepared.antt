-- ===== src/Install/Creation/Prepared.antt =====
-- system.c: what CreateAndFormatPartition leaves behind.
use hdlgame_installer.Base.{
  ℕ, suc, ◌+◌, ◌≤◌, length, true, false, List, [], ◌∷◌, Option, some, ◌≡◌, refl, ap, sym, ◌⊎◌, inl,
  inr, ◌≢◌, subst, arith, Code, ok, err, is_ok,
}
use hdlgame_installer.Install.Partitions.{PartSize, Apa, is_full, add_partition, sectors_left, Made}
use hdlgame_installer.Install.Partitions.Sizes.{IsPartSize}
use hdlgame_installer.Install.Partitions.Enough.{
  capacity, AreParts, Refused, add_partition-IsTried, add_subs-IsMade,
}
use hdlgame_installer.Install.Creation.{
  GameRequest, FormatArgs, sectors_on_disc, format_args, CreationOutcome, remove_if_failed,
  format_made, with_made, after_main, create_and_format,
}

-- The partitions are those that the driver has made, in sizes of the list; with a result of zero
-- or more they hold the image and stay, with an error they are removed, where there are any.
pub record IsPrepared (apa : Apa) (g : GameRequest) (o : CreationOutcome) : Type 0 where
  pub made : AreParts apa 0 o.parts
  pub enough : is_ok o.result ≡ true → (sectors_on_disc g ≤ capacity o.parts) × (o.removed ≡ false)
  pub taken_back : is_ok o.result ≡ false → (o.parts ≡ []) ⊎ (o.removed ≡ true)

-- An error is that with which the driver has refused the partition behind those that were made, or
-- that of the format of these partitions, which hold the image.
abbrev pub FailsBy :
    Apa → (List PartSize → FormatArgs → Code) → GameRequest → CreationOutcome → Type 0
FailsBy apa format g o =
    is_ok o.result ≡ false
    → Refused apa (length o.parts) o.result
      ⊎ ((o.parts ≢ [])
          × (sectors_on_disc g ≤ capacity o.parts)
          × (o.result ≡ format o.parts (format_args g)))

abbrev IsOutcome :
    Apa → (List PartSize → FormatArgs → Code) → GameRequest → Option CreationOutcome → Type 0
IsOutcome apa format g r =
    (o : CreationOutcome) × (r ≡ some o) × IsPrepared apa g o × FailsBy apa format g o

module _ (apa : Apa) (format : List PartSize → FormatArgs → Code) (g : GameRequest)
    (main : PartSize) (m : Made) (parts : AreParts apa 0 (main ∷ m.parts))
    (enough : is_ok m.result ≡ true → sectors_on_disc g ≤ capacity (main ∷ m.parts))
    (why : is_ok m.result ≡ false → Refused apa (1 + length m.parts) m.result) where
  made_lem : (c : Code) → m.result ≡ c → IsOutcome apa format g (some (format_made format g main m))
  unfolding format_made
  made_lem (err e) eq = (
    remove_if_failed (err e) (main ∷ m.parts),
    rw eq refl,
    record { made = parts; enough = λ h. cc; taken_back = λ h. inr refl },
    λ h. inl (
        subst (Refused apa (suc (length m.parts))) eq
          (subst (λ i. Refused apa i m.result) (omega arith) (why (ap is_ok eq)))),
  )
  made_lem (ok n) eq = formatted (format (main ∷ m.parts) (format_args g)) refl
    where
      formatted :
          (c : Code)
          → format (main ∷ m.parts) (format_args g) ≡ c
          → IsOutcome apa format g (some (format_made format g main m))
      formatted (ok k) same = (
        remove_if_failed (ok k) (main ∷ m.parts),
        rw (eq, same) refl,
        record { made = parts; enough = λ h. (enough (ap is_ok eq), refl); taken_back = λ h. cc },
        λ h. cc,
      )
      formatted (err x) same = (
        remove_if_failed (err x) (main ∷ m.parts),
        rw (eq, same) refl,
        record { made = parts; enough = λ h. cc; taken_back = λ h. inr refl },
        λ h. inr ((λ z. cc), enough (ap is_ok eq), sym same),
      )

after_main-IsOutcome :
    (apa : Apa) (format : List PartSize → FormatArgs → Code) (g : GameRequest) (r : Code)
    (main : PartSize)
    → IsPartSize 0 main
    → r ≡ apa.create 0 main.index
    → (is_full r ≡ true → main.index ≡ 0)
    → IsOutcome apa format g (after_main apa format g (r, main))
unfolding after_main
after_main-IsOutcome apa format g (err e) main listed answer full = (
  record { result = err e; parts = []; removed = false },
  refl,
  record { made = tt; enough = λ h. cc; taken_back = λ h. inl refl },
  λ h. inl (main.index, listed.listed, answer, refl, full),
)
after_main-IsOutcome apa format g (ok fd) main listed answer full =
    let (m, e, parts, enough, why) =
      add_subs-IsMade apa (left + 1) left 1 (ok 0) main (omega arith) in
    subst (λ x. IsOutcome apa format g (with_made format g main x)) (sym e)
      (made_lem apa format g main m (listed, ap is_ok (sym answer), parts)
        (λ h. covered (sectors_on_disc g) main.sectors (capacity m.parts) (enough h)) (why refl)
        m.result refl)
  where
    left : ℕ
    left = sectors_left (sectors_on_disc g) main.sectors

    covered : (n s c : ℕ) → sectors_left n s ≤ c → n ≤ s + c
    covered n s c h = ground arith

-- CreateAndFormatPartition ends, whatever the driver and the format answer. The partitions are
-- those that the driver has made, in sizes of the list; with a result of zero or more they hold the
-- image and stay, and with an error they are removed, where there are any. An error is that with
-- which the driver has refused the partition behind those that were made, in the smallest size if
-- the error is -ENOSPC, or that of the format of these partitions, which hold the image.
pub create_and_format-IsPrepared :
    (apa : Apa) (format : List PartSize → FormatArgs → Code) (unset : PartSize) (g : GameRequest)
    → (o : CreationOutcome) × (create_and_format apa format unset g ≡ some o)
      × IsPrepared apa g o
      × FailsBy apa format g o
unfolding create_and_format
create_and_format-IsPrepared apa format unset g =
    let (listed, answer, full) = add_partition-IsTried apa (sectors_on_disc g) 0 unset in
    after_main-IsOutcome apa format g (add_partition apa (sectors_on_disc g) 0 unset).0
      (add_partition apa (sectors_on_disc g) 0 unset).1 listed answer full
