-- ===== src/Strings/Equals.antt =====
-- Comparison of strings is equality of their characters.
use honey_os.Base.{ℕ, true, List, [], ◌∷◌, ◌≡◌, refl, ◌↔◌, arith}
use honey_os.Strings.{text_at, string_equals}

text_at-equal :
    (string1 string2 : List ℕ)
    → string_equals string1 string2 ≡ true
    → text_at string1 ≡ text_at string2
unfolding text_at string_equals
text_at-equal [] [] e = refl
text_at-equal [] (d ∷ string2) e = ground arith
text_at-equal (c ∷ string1) [] e = ground arith
text_at-equal (c ∷ string1) (d ∷ string2) e = ground (arith, text_at-equal string1 string2)

equal-text_at :
    (string1 string2 : List ℕ)
    → text_at string1 ≡ text_at string2
    → string_equals string1 string2 ≡ true
unfolding text_at string_equals
equal-text_at [] [] e = refl
equal-text_at [] (d ∷ string2) e = ground arith
equal-text_at (c ∷ string1) [] e = ground arith
equal-text_at (c ∷ string1) (d ∷ string2) e = ground (arith, equal-text_at string1 string2)

-- `stringEquals` says yes exactly where the two strings have the same characters in front of their zeros, whatever lies behind these.
pub string_equals_iff :
    (string1 string2 : List ℕ)
    → (string_equals string1 string2 ≡ true) ↔ (text_at string1 ≡ text_at string2)
string_equals_iff string1 string2 = (text_at-equal string1 string2, equal-text_at string1 string2)
