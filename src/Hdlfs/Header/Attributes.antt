-- ===== src/Hdlfs/Header/Attributes.antt =====
-- hdlfs/main.c: the attribute word of a game's header through chstat and getstat.
use hdlgame_installer.Base.{ℕ, ◌+◌, ◌*◌, ◌/◌, ◌%◌, ◌^◌, ◌<◌, true, false, some, ◌≡◌, arith, ok, ap₂}
use hdlgame_installer.Hdlfs.Format.{u32}
use hdlgame_installer.Hdlfs.Header.{
  Medium, Stat, Change, GameInfo, pack_attr, unpack_attr, unpack_private, changed_info, fill_stat,
  game_size, hdlfs_getstat, hdlfs_chstat,
}

pack_attr-unpack_attr :
    (attr : ℕ) (g : GameInfo) → attr < u32 → pack_attr (unpack_attr attr g) ≡ attr
unfolding pack_attr unpack_attr
pack_attr-unpack_attr attr g h = omega arith

-- A mounted partition whose header can be read and written in full.
abbrev pub intact : GameInfo → Medium
intact g = record { mounted = true; info = g; reads_all = true; writes_all = true }

-- A change of the attributes and of the private words.
abbrev pub change_both : Change
change_both = record { times = false; changes_attr = true; changes_private = true }

private_word :
    (word parts : ℕ)
    → word < u32
    → parts < 2 ^ 16
    → (word / 2 ^ 16 * 2 ^ 16 + parts) % u32 ≡ word / 2 ^ 16 * 2 ^ 16 + parts
private_word word parts h1 h2 = omega arith

-- After chstat has set the attributes and the private words of a game whose header can be read and
-- written, getstat gives the same attribute word and the same second private word; the upper half
-- of the first private word is the one that was set, and its lower half, the number of slices, and
-- the size are those of the game, whatever the request says.
pub hdlfs_getstat-hdlfs_chstat :
    (stat : Stat) (g : GameInfo)
    → stat.attr < u32
    → stat.private_0 < u32
    → g.num_partitions < 2 ^ 16
    → hdlfs_getstat (hdlfs_chstat change_both stat (intact g)).1 ≡ (
      ok 0,
      some (record {
        attr = stat.attr;
        size = game_size g.num_partitions g.part_specs 0;
        private_0 = stat.private_0 / 2 ^ 16 * 2 ^ 16 + g.num_partitions;
        private_1 = stat.private_1;
        private_5 = 0x2000;
      }),
    )
unfolding hdlfs_getstat hdlfs_chstat changed_info fill_stat unpack_attr unpack_private pack_attr
hdlfs_getstat-hdlfs_chstat stat g h1 h2 h3 =
    ap₂
      (λ a w. (
        ok 0,
        some (record {
          attr = a;
          size = game_size g.num_partitions g.part_specs 0;
          private_0 = w;
          private_1 = stat.private_1;
          private_5 = 0x2000;
        }),
      ))
      (pack_attr-unpack_attr stat.attr g h1) (private_word stat.private_0 g.num_partitions h2 h3)
