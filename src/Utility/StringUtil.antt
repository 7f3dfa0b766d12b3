-- ===== src/Utility/StringUtil.antt =====
-- utility/StringUtil.cpp, `ToLower`, on texts as lists of character codes, with `tolower` of the "C"
-- locale, and the equality of texts.
use quickstep_streaming.Prelude.{
  ℕ, ◌+◌, ◌≡◌, refl, sym, ap, ◌∙◌, ◌↔◌, Bool, true, false, ◌&&◌, List, [], ◌∷◌, map, leb, ◌==◌,
  if◌then◌else◌, arith,
}

abbrev pub Name : Type 0
Name = List ℕ

lower_char : ℕ → ℕ
lower_char c = if leb 65 c && leb c 90 then c + 32 else c

unfoldable pub to_lower : Name → Name
unfolding lower_char
to_lower s = map lower_char s

unfoldable pub same_name : Name → Name → Bool
same_name [] [] = true
same_name [] (d ∷ ds) = false
same_name (c ∷ cs) [] = false
same_name (c ∷ cs) (d ∷ ds) = c == d && same_name cs ds

same_name-eq : (a b : Name) → same_name a b ≡ true → a ≡ b
unfolding same_name
same_name-eq [] [] h = refl
same_name-eq [] (d ∷ ds) h = cc
same_name-eq (c ∷ cs) [] h = cc
same_name-eq (c ∷ cs) (d ∷ ds) h = ground (arith, same_name-eq cs ds)

same_name_self : (a : Name) → same_name a a ≡ true
unfolding same_name
same_name_self [] = refl
same_name_self (c ∷ cs) = ground (arith, same_name_self cs)

pub same_name_iff : (a b : Name) → (same_name a b ≡ true) ↔ (a ≡ b)
same_name_iff a b = (same_name-eq a b, λ e. ap (same_name a) (sym e) ∙ same_name_self a)

lower_char-lower_char : (c : ℕ) → lower_char (lower_char c) ≡ lower_char c
unfolding lower_char
lower_char-lower_char c = ground arith

-- Names that are lower case already stay.
pub to_lower-to_lower : (s : Name) → to_lower (to_lower s) ≡ to_lower s
unfolding to_lower
to_lower-to_lower [] = refl
to_lower-to_lower (c ∷ s) = ground (arith, lower_char-lower_char c, to_lower-to_lower s)
