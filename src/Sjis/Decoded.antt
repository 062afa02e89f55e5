-- ===== src/Sjis/Decoded.antt =====
-- sjis.c: an encoded text is decoded character by character.
use hdlgame_installer.Base.{
  ℕ, zero, suc, ◌+◌, ◌/◌, ◌%◌, ◌≤◌, ◌<◌, ◌⊎◌, true, false, List, [], ◌∷◌, ◌++◌, map, length, drop,
  All, ◌≡◌, refl, ap, inl, inr, arith, if◌then◌else◌, ltb, leb, ◌==◌,
}
use mathlib.Core.List.{append_assoc}
use hdlgame_installer.Sjis.{
  convert_sjis_to_unicode_char, char_length_from_string, char_length, next_sjis_char,
  sjis_to_unicode,
}

-- A character of one byte, or of two whose first has its upper bit set.
abbrev pub IsSjis : ℕ → Type 0
IsSjis c = ((1 ≤ c) × (c < 0x80)) ⊎ ((0x8000 ≤ c) × (c < 0x1_0000))

-- Its bytes.
abbrev pub encode : ℕ → List ℕ
encode c = if ltb c 0x80 then c ∷ [] else c / 256 ∷ c % 256 ∷ []

abbrev pub encode_all : List ℕ → List ℕ
encode_all [] = []
encode_all (c ∷ cs) = encode c ++ encode_all cs

next-encode :
    (c : ℕ) (rest : List ℕ)
    → IsSjis c
    → (next_sjis_char (encode c ++ rest) ≡ c)
      × (drop (char_length_from_string (encode c ++ rest)) (encode c ++ rest) ≡ rest)
unfolding next_sjis_char char_length_from_string
next-encode c rest (inl h) =
    let one : ltb c 0x80 ≡ true = ground arith in
    let low : leb 0x80 c ≡ false = ground arith in rw (one, low) (refl, refl)
next-encode c rest (inr h) =
    let two : ltb c 0x80 ≡ false = ground arith in
    let high : leb 0x80 (c / 256) ≡ true = ground arith in rw (two, high) (omega arith, refl)

-- Where the output has room for the text's characters and the final null, SJISToUnicode on a text
-- that ends with a null, without a limit on its bytes, gives each character converted, in order,
-- and the null.
pub sjis_to_unicode-encode_all :
    (table : List (ℕ × ℕ)) (cs rest : List ℕ) (rounds i : ℕ)
    → All IsSjis cs
    → length cs < rounds
    → sjis_to_unicode table 0 rounds i (encode_all cs ++ 0 ∷ rest)
      ≡ map (convert_sjis_to_unicode_char table) cs ++ 0 ∷ []
unfolding sjis_to_unicode
sjis_to_unicode-encode_all table cs rest zero i h k = absurd (omega arith)
sjis_to_unicode-encode_all table [] rest (suc rounds) i h k = refl
sjis_to_unicode-encode_all table (c ∷ cs) rest (suc rounds) i h k =
    let e = next-encode c (encode_all cs ++ 0 ∷ rest) h.0 in
    let more : (c == 0) ≡ false = nonzero h.0 in
    rw (append_assoc (encode c) (encode_all cs) (0 ∷ rest), e.0, e.1, more)
      (ap (convert_sjis_to_unicode_char table c ∷◌) (
        sjis_to_unicode-encode_all table cs rest rounds (i + char_length c) h.1 (omega (arith, k))))
  where
    nonzero : IsSjis c → (c == 0) ≡ false
    nonzero (inl a) = ground arith
    nonzero (inr a) = ground arith
