-- ===== src/Texts/Laws.antt =====
-- Texts put together and taken apart again.
use comelit_man.Prelude.{
  Text, ℕ, ◌≡◌, refl, ap, ◌∙◌, true, false, some, List, [], ◌∷◌, ◌++◌, ◌==◌, ==_refl, All,
}
use comelit_man.Texts.{
  onto_first, is_space, strip_left, strip_onto, strip_right, strip, split_first, words_from, words,
  blank, split_crlf, not_blank,
}

abbrev pub No : ℕ → Text → Type 0
No sep t = All (λ c. (c == sep) ≡ false) t

-- Lines.
split_crlf_plain :
    (c : ℕ) (t : Text) → (c == 13) ≡ false → split_crlf (c ∷ t) ≡ onto_first c (split_crlf t)
unfolding split_crlf
split_crlf_plain c [] h = refl
split_crlf_plain c (d ∷ t) h = rw h refl

split_crlf-append :
    (t rest : Text) → No 13 t → split_crlf (t ++ 13 ∷ 10 ∷ rest) ≡ t ∷ split_crlf rest
unfolding split_crlf
split_crlf-append [] rest h = refl
split_crlf-append (c ∷ t) rest h =
    split_crlf_plain c (t ++ 13 ∷ 10 ∷ rest) h.0 ∙ ap (onto_first c) (split_crlf-append t rest h.1)

unfoldable pub text_lines : Text → List Text
unfolding not_blank split_crlf
text_lines t = not_blank (split_crlf t)

pub text_lines-append :
    (t rest : Text)
    → No 13 t
    → blank t ≡ false
    → text_lines (t ++ 13 ∷ 10 ∷ rest) ≡ t ∷ text_lines rest
unfolding text_lines not_blank
text_lines-append t rest h k = rw (split_crlf-append t rest h) (rw k refl)

pub text_lines_blank : (rest : Text) → text_lines (13 ∷ 10 ∷ rest) ≡ text_lines rest
unfolding text_lines not_blank split_crlf
text_lines_blank rest = refl

-- Words.
abbrev pub IsWord : Text → Type 0
IsWord t = (blank t ≡ false) × All (λ c. is_space c ≡ false) t

words_from-append :
    (c : ℕ) (w t : Text)
    → IsWord (c ∷ w)
    → words_from (c ∷ w ++ b' ' ∷ t) ≡ ((c ∷ w) ∷ (words_from t).0, true)
unfolding words_from
words_from-append c [] t h = rw h.1.0 refl
words_from-append c (d ∷ w) t h = rw (words_from-append d w t (refl, h.1.1)) (rw h.1.0 refl)

words_from-word : (c : ℕ) (w : Text) → IsWord (c ∷ w) → words_from (c ∷ w) ≡ ((c ∷ w) ∷ [], true)
unfolding words_from
words_from-word c [] h = rw h.1.0 refl
words_from-word c (d ∷ w) h = rw (words_from-word d w (refl, h.1.1)) (rw h.1.0 refl)

pub words-append : (w t : Text) → IsWord w → words (w ++ b' ' ∷ t) ≡ w ∷ words t
unfolding words
words-append [] t h = cc
words-append (c ∷ w) t h = ap (λ p. p.0) (words_from-append c w t h)

pub words-word : (w : Text) → IsWord w → words w ≡ w ∷ []
unfolding words
words-word [] h = cc
words-word (c ∷ w) h = ap (λ p. p.0) (words_from-word c w h)

-- The part in front of a separator.
pub split_first-append :
    (sep : ℕ) (t rest : Text) → No sep t → split_first sep (t ++ sep ∷ rest) ≡ some (t, rest)
unfolding split_first
split_first-append sep [] rest h = rw (==_refl sep) refl
split_first-append sep (c ∷ t) rest h = rw h.0 (rw (split_first-append sep t rest h.1) refl)

strip_left-onto : (t : Text) → strip_left (strip_onto b' ' t) ≡ strip_left t
unfolding strip_left
strip_left-onto [] = refl
strip_left-onto (c ∷ t) = refl

pub strip_space : (t : Text) → strip (b' ' ∷ t) ≡ strip t
unfolding strip strip_right
strip_space t = strip_left-onto (strip_right t)
