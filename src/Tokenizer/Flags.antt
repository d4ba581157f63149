-- ===== src/Tokenizer/Flags.antt =====
-- Classes of code points, as the tokenizer's tables have them.
use kraken_infer.Base.{
  ℕ, ◌+◌, ◌-◌, Bool, true, false, not, ◌&&◌, ◌||◌, List, [], ◌∷◌, leb, ◌==◌, if◌then◌else◌,
}

unfoldable pub ascii_tolower : ℕ → ℕ
ascii_tolower codepoint =
    if leb b'A' codepoint && leb codepoint b'Z' then codepoint + (b'a' - b'A') else codepoint

abbrev pub in_range : ℕ → ℕ → ℕ → Bool
in_range value first last = leb first value && leb value last

unfoldable pub is_unicode_number : ℕ → Bool
is_unicode_number codepoint = in_range codepoint b'0' b'9' || in_range codepoint 0xFF10 0xFF19

unfoldable pub is_unicode_accent_mark : ℕ → Bool
is_unicode_accent_mark codepoint =
    in_range codepoint 0x0300 0x036F
    || in_range codepoint 0x1AB0 0x1AFF
    || in_range codepoint 0x1DC0 0x1DFF
    || in_range codepoint 0x20D0 0x20FF
    || in_range codepoint 0xFE20 0xFE2F

abbrev pub whitespace_codepoints : List ℕ
whitespace_codepoints =
    0x0009 ∷ 0x000A ∷ 0x000B ∷ 0x000C ∷ 0x000D ∷ 0x0020 ∷ 0x0085 ∷ 0x00A0 ∷ 0x1680 ∷ 0x2000 ∷ 0x2001
    ∷ 0x2002 ∷ 0x2003 ∷ 0x2004 ∷ 0x2005 ∷ 0x2006 ∷ 0x2007 ∷ 0x2008 ∷ 0x2009 ∷ 0x200A ∷ 0x2028
    ∷ 0x2029 ∷ 0x202F ∷ 0x205F ∷ 0x3000 ∷ []

-- The `switch` on the cases.
unfoldable pub is_case : ℕ → List ℕ → Bool
is_case codepoint [] = false
is_case codepoint (c ∷ cases) = c == codepoint || is_case codepoint cases

unfoldable pub is_unicode_whitespace : ℕ → Bool
unfolding is_case
is_unicode_whitespace codepoint = is_case codepoint whitespace_codepoints

unfoldable pub is_unicode_letter : ℕ → Bool
is_unicode_letter codepoint =
    if in_range codepoint b'A' b'Z' || in_range codepoint b'a' b'z'
    then true
    else if in_range codepoint 0x00C0 0x02AF
    then not (codepoint == 0x00D7) && not (codepoint == 0x00F7)
    else in_range codepoint 0x0370 0x03FF
      || in_range codepoint 0x0400 0x052F
      || in_range codepoint 0x0530 0x058F
      || in_range codepoint 0x0590 0x05FF
      || in_range codepoint 0x0600 0x06FF
      || in_range codepoint 0x0900 0x097F
      || in_range codepoint 0x3040 0x30FF
      || in_range codepoint 0x3400 0x4DBF
      || in_range codepoint 0x4E00 0x9FFF
      || in_range codepoint 0xAC00 0xD7AF
      || in_range codepoint 0xF900 0xFAFF
      || in_range codepoint 0x20000 0x2FA1F

pub record UnicodeFlags : Type 0 where
  pub is_number : Bool
  pub is_letter : Bool
  pub is_accent_mark : Bool
  pub is_whitespace : Bool

abbrev pub no_flags : UnicodeFlags
no_flags = record {
  is_number = false;
  is_letter = false;
  is_accent_mark = false;
  is_whitespace = false;
}

-- `UnicodeFlags::any`.
abbrev pub any_flag : UnicodeFlags → Bool
any_flag flags = flags.is_number || flags.is_letter || flags.is_accent_mark || flags.is_whitespace

unfoldable pub unicode_flags : ℕ → UnicodeFlags
unfolding is_unicode_number is_unicode_letter is_unicode_accent_mark is_unicode_whitespace
unicode_flags codepoint = record {
  is_number = is_unicode_number codepoint;
  is_letter = is_unicode_letter codepoint;
  is_accent_mark = is_unicode_accent_mark codepoint;
  is_whitespace = is_unicode_whitespace codepoint;
}
