-- ===== src/Protocol/Texts.antt =====
-- The test of texts for equality, read both ways.
use text.Mathlib.Text.{◌==◌ as str_eq}
use text.Mathlib.TextEquality.{eq_iff}
use view_server.Prelude.{String, ◌≡◌, ◌≢◌, refl, Bool-cases, inl, inr, true, false}

pub same_text : (s : String) → str_eq s s ≡ true
same_text s = (eq_iff s s).1 refl

pub other_text : (s t : String) → s ≢ t → str_eq s t ≡ false
other_text s t h = elim (Bool-cases (str_eq s t)) [
  | inl e ↦ absurd (h ((eq_iff s t).0 e))
  | inr e ↦ e
]

pub equal_texts : (s t : String) → str_eq s t ≡ true → s ≡ t
equal_texts s t e = (eq_iff s t).0 e
