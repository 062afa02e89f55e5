-- ===== src/Sjis.antt =====
-- sjis.c: the conversion of Shift-JIS text. A text is the bytes from its start on.
pub mod Decoded
use hdlgame_installer.Base.{
  ℕ, zero, suc, ◌+◌, ◌*◌, Bool, true, false, ◌&&◌, List, [], ◌∷◌, drop, get_or, if◌then◌else◌, ltb,
  leb, ◌==◌,
}

abbrev pub unicode_replacement_char : ℕ
unicode_replacement_char = 0xFFFD

-- The loop over LookupTable, as pairs of a Shift-JIS and a Unicode character.
unfoldable pub look_up : List (ℕ × ℕ) → (source_char : ℕ) → ℕ
look_up [] source_char = unicode_replacement_char
look_up ((sjis, unicode) ∷ table) source_char =
    if sjis == source_char then unicode else look_up table source_char

-- ConvertSJISToUnicodeChar
unfoldable pub convert_sjis_to_unicode_char : List (ℕ × ℕ) → (source_char : ℕ) → ℕ
unfolding look_up
convert_sjis_to_unicode_char table source_char =
    if ltb source_char 0x80 then source_char else look_up table source_char

-- GetSJISCharLengthFromString
unfoldable pub char_length_from_string : List ℕ → ℕ
char_length_from_string bytes = if leb 0x80 (get_or bytes 0 0) then 2 else 1

-- GetSJISCharLength
unfoldable pub char_length : (sjis_character : ℕ) → ℕ
char_length sjis_character = if leb 0x8000 sjis_character then 2 else 1

-- The character of GetNextSJISChar; the string goes on behind its bytes.
unfoldable pub next_sjis_char : List ℕ → ℕ
unfolding char_length_from_string
next_sjis_char bytes =
    if char_length_from_string bytes == 1
    then get_or bytes 0 0
    else get_or bytes 0 0 * 256 + get_or bytes 1 0

-- SJISToUnicode: the characters that it writes, whose number is its result. `rounds` is what is left
-- of NumUChars, `length` the bytes to be read at most, or 0, and `i` those that have been read.
unfoldable pub sjis_to_unicode :
    List (ℕ × ℕ) → (length rounds i : ℕ) → (source_string : List ℕ) → List ℕ
unfolding next_sjis_char convert_sjis_to_unicode_char char_length
sjis_to_unicode table length zero i source_string = []
sjis_to_unicode table length (suc rounds) i source_string =
    let c = next_sjis_char source_string in
    let rest =
      sjis_to_unicode table length rounds (i + char_length c)
        (drop (char_length_from_string source_string) source_string) in
    if ltb 0 length && leb length i
    then []
    else if c == 0
    then 0 ∷ []
    else convert_sjis_to_unicode_char table c ∷ rest
