-- ===== src/Wire/Words.antt =====
-- The memory of words and its parts.
use hongwei_notebook.Common.{
  ℕ, zero, suc, ◌*◌, ◌/◌, ◌<◌, ◌≡◌, refl, ap, arith, [], ◌∷◌, ◌++◌, length, take, drop,
}
use hongwei_notebook.Common.Map.{Bytes}
use hongwei_notebook.Wire.{memory_of, word_in}

abbrev pub words : ℕ → ℕ
words zero = 1
words (suc w) = 256 * words w

pub word_in-memory_of : (w n : ℕ) → n < words w → word_in (memory_of w n) ≡ n
word_in-memory_of zero n h = omega arith
word_in-memory_of (suc w) n h = omega (arith, word_in-memory_of w (n / 256) (omega arith))

pub length-memory_of : (w n : ℕ) → length (memory_of w n) ≡ w
length-memory_of zero n = refl
length-memory_of (suc w) n = ap suc (length-memory_of w (n / 256))

pub take-append_left : (n : ℕ) (xs ys : Bytes) → length xs ≡ n → take n (xs ++ ys) ≡ xs
take-append_left zero [] ys h = refl
take-append_left zero (x ∷ xs) ys h = absurd (omega arith)
take-append_left (suc n) [] ys h = absurd (omega arith)
take-append_left (suc n) (x ∷ xs) ys h = ap (λ t. x ∷ t) (take-append_left n xs ys (omega arith))

pub drop-append_left : (n : ℕ) (xs ys : Bytes) → length xs ≡ n → drop n (xs ++ ys) ≡ ys
drop-append_left zero [] ys h = refl
drop-append_left zero (x ∷ xs) ys h = absurd (omega arith)
drop-append_left (suc n) [] ys h = absurd (omega arith)
drop-append_left (suc n) (x ∷ xs) ys h = drop-append_left n xs ys (omega arith)
