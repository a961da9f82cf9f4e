-- ===== src/CaseMap/Ascii.antt =====
-- The case of single bytes, for utf8_tolower and utf8_toupper of src/unicode.c.
use solidc.Base.{ℕ, ◌+◌, ◌-◌, ◌<◌, ◌≡◌, refl, true, ◌&&◌, leb, ◌==◌, if◌then◌else◌, ==→eq}
use solidc.Base.Bits.{all_below, all_below_sound}
use solidc.CaseMap.{is_upper, is_lower, ascii_lower, ascii_upper}

lower_table :
    all_below 128 (λ b. ascii_lower b == (if leb 64 b && leb b 90 then b + 32 else b)) ≡ true
unfolding ascii_lower is_upper
lower_table = refl

upper_table :
    all_below 128 (λ b. ascii_upper b == (if leb 96 b && leb b 122 then b - 32 else b)) ≡ true
unfolding ascii_upper is_lower
upper_table = refl

-- On an ASCII byte utf8_tolower adds 32 to '@' (64) and to the upper-case letters (65 to 90), and
-- utf8_toupper takes 32 from '`' (96) and from the lower-case letters (97 to 122); the other ASCII bytes
-- stay as they are.
pub ascii_case_lem :
    (b : ℕ)
    → b < 128
    → (ascii_lower b ≡ (if leb 64 b && leb b 90 then b + 32 else b))
      × (ascii_upper b ≡ (if leb 96 b && leb b 122 then b - 32 else b))
ascii_case_lem b h = (
  ==→eq _ _ (
      all_below_sound 128 (λ b. ascii_lower b == (if leb 64 b && leb b 90 then b + 32 else b)) b
        lower_table h),
  ==→eq _ _ (
      all_below_sound 128 (λ b. ascii_upper b == (if leb 96 b && leb b 122 then b - 32 else b)) b
        upper_table h),
)
