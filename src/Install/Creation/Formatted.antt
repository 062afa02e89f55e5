-- ===== src/Install/Creation/Formatted.antt =====
-- system.c and hdlfs/main.c: the partitions that CreateAndFormatPartition makes can be formatted.
use hdlgame_installer.Base.{
  ℕ, suc, ◌+◌, ◌-◌, ◌≤◌, ◌<◌, true, false, List, [], ◌∷◌, length, Option, some, ◌≡◌, refl, ap, sym,
  ◌∙◌, ◌≢◌, inl, inr, arith, ltb, Code, ok, is_ok,
}
use hdlgame_installer.Hdlfs.Format.{
  PartSpec, Volume, u32, tiled, format_loop, finish_format, hdlfs_format,
}
use hdlgame_installer.Hdlfs.Format.Tiles.{Tiles, IsVolume, hdlfs_format-Tiles}
use hdlgame_installer.Install.Partitions.{PartSize, Apa}
use hdlgame_installer.Install.Partitions.Enough.{capacity, AreParts, Refused}
use hdlgame_installer.Install.Creation.{
  GameRequest, sectors_on_disc, format_args, CreationOutcome, create_and_format,
}
use hdlgame_installer.Install.Creation.Prepared.{IsPrepared, create_and_format-IsPrepared}
use hdlgame_installer.Install.Creation.Covers.{
  Disc, volume_of, format_on, size_in, size_in-AreSizes, size_in_bounds, format_loop_covers,
}

finish_format_lem :
    (v : Volume) (number : ℕ) (qs : List PartSpec) (end : ℕ)
    → v.writes_all ≡ true
    → number ≤ end
    → finish_format v number (tiled qs end) ≡ (ok 0, some qs)
unfolding finish_format
finish_format_lem v number qs end w h =
    let enough : ltb end number ≡ false = ground arith in rw (enough, w) refl

-- Partitions that hold the image are formatted: hdlfs_format writes a header whose slices cover
-- the image from its first sector to its last, each inside its partition.
pub hdlfs_format-parts :
    (apa : Apa) (d : Disc) (ps : List PartSize) (number : ℕ)
    → AreParts apa 0 ps
    → ps ≢ []
    → number ≤ capacity ps
    → number < u32
    → (qs : List PartSpec) × (hdlfs_format (volume_of d ps) number ≡ (ok 0, some qs))
      × Tiles (size_in 0 ps) 0 0 number qs
unfolding hdlfs_format
hdlfs_format-parts apa d [] number h ne room small = absurd (ne refl)
hdlfs_format-parts apa d (p ∷ ps) number h ne room small =
    let (qs, end, same, covers) =
      format_loop_covers d (size_in 0 (p ∷ ps)) (length ps) number small apa (p ∷ ps) 0 0 h
        (size_in-AreSizes 0 (p ∷ ps)) (omega arith) in
    let e = done qs end same (covers (omega (arith, room))) in
    (qs, e, hdlfs_format-Tiles v number volume small qs 0 e)
  where
    v : Volume
    v = volume_of d (p ∷ ps)

    volume : IsVolume v
    volume = record {
      has_reserved = λ i. (size_in_bounds apa 0 (p ∷ ps) i h).0;
      size_u32 = λ i. (size_in_bounds apa 0 (p ∷ ps) i h).1;
    }

    done :
        (qs : List PartSpec) (end : ℕ)
        → format_loop v number (suc (length ps)) 0 0 ≡ tiled qs end
        → number ≤ end
        → finish_format v number (format_loop v number (v.nsub + 1) 0 0) ≡ (ok 0, some qs)
    done qs end same h =
        let count : suc (length ps) - 1 + 1 ≡ suc (length ps) = omega arith in
        rw (count, same) (finish_format_lem v number qs end refl h)

-- With the format of hdlfs, on a disc where the partitions that the driver has made can be opened and
-- written, CreateAndFormatPartition ends, with partitions that are as IsPrepared says, and an error
-- is that with which the driver has refused the partition behind those that were made, in the
-- smallest size if the error is -ENOSPC.
pub create_and_format_succeeds :
    (apa : Apa) (d : Disc) (unset : PartSize) (g : GameRequest)
    → (o : CreationOutcome) × (create_and_format apa (format_on d) unset g ≡ some o)
      × IsPrepared apa g o
      × (is_ok o.result ≡ false → Refused apa (length o.parts) o.result)
unfolding format_args
create_and_format_succeeds apa d unset g =
    let (o, e, prepared, why) = create_and_format-IsPrepared apa (format_on d) unset g in
    (
      o,
      e,
      prepared,
      λ h. elim (why h) [
        | inl refused ↦ refused
        | inr (ne, room, same) ↦
            absurd (never o.parts prepared.made ne room (ap is_ok (sym same) ∙ h))
      ],
    )
  where
    never :
        (ps : List PartSize)
        → AreParts apa 0 ps
        → ps ≢ []
        → sectors_on_disc g ≤ capacity ps
        → is_ok (format_on d ps (format_args g)) ≡ false
        → ⊥
    never ps made ne room fails =
        let (qs, e, tiles) =
          hdlfs_format-parts apa d ps (sectors_on_disc g) made ne room (omega arith) in
        let good : (hdlfs_format (volume_of d ps) (sectors_on_disc g)).0 ≡ ok 0 =
          ap (λ (x : Code × Option (List PartSpec)). x.0) e in
        cc
