-- ===== src/Tests/JapaneseText.antt =====
-- A short Shift-JIS text.
use hdlgame_installer.Base.{ℕ, List, [], ◌∷◌, ◌++◌, map, ◌≡◌, refl, inl, inr, arith}
use hdlgame_installer.Sjis.{convert_sjis_to_unicode_char, sjis_to_unicode}
use hdlgame_installer.Sjis.Decoded.{encode_all, sjis_to_unicode-encode_all}

abbrev table : List (ℕ × ℕ)
table = (0x829F, 0x3041) ∷ (0x82A0, 0x3042) ∷ []

sjis_to_unicode-encode_all_example :
    sjis_to_unicode table 0 16 0 (encode_all (0x41 ∷ 0x82A0 ∷ []) ++ 0 ∷ [])
    ≡ map (convert_sjis_to_unicode_char table) (0x41 ∷ 0x82A0 ∷ []) ++ 0 ∷ []
sjis_to_unicode-encode_all_example =
    sjis_to_unicode-encode_all table (0x41 ∷ 0x82A0 ∷ []) [] 16 0
      (inl (omega arith), (inr (omega arith), tt)) (omega arith)

-- A limit on the bytes ends the text.
limited : sjis_to_unicode table 2 16 0 (0x41 ∷ 0x82 ∷ 0xA0 ∷ 0x42 ∷ []) ≡ 0x41 ∷ 0x3042 ∷ []
unfolding sjis_to_unicode
limited = refl
