-- ===== src/Kiosk/Countdown/Digits.antt =====
-- Decimal text: how the script's `+ n` prints a number, and a reader of digits.
use familyplanner.Prelude.{
  ℕ, zero, suc, ◌+◌, ◌-◌, ◌*◌, ◌/◌, ◌%◌, ◌<◌, ◌≡◌, ap, ◌∙◌, Bool, ◌&&◌, List, [], ◌∷◌, ◌++◌, arith,
  ltb, leb, if◌then◌else◌, inl, inr, Bool-cases,
}
use mathlib.Core.List.{append_assoc}

digits_of : ℕ → ℕ → List ℕ
digits_of zero n = []
digits_of (suc f) n =
    let rest = digits_of f (n / 10) ++ ((b'0' + n % 10) ∷ []) in
    if ltb n 10 then (b'0' + n) ∷ [] else rest

-- The digits of a number, most significant first; a number has fewer digits than its successor.
unfoldable pub decimal : ℕ → List ℕ
unfolding digits_of
decimal n = digits_of (suc n) n

abbrev pub is_digit : ℕ → Bool
is_digit c = leb b'0' c && leb c b'9'

-- Reads digits from the front into `acc`, and returns the rest.
unfoldable pub read : ℕ → List ℕ → ℕ × List ℕ
read acc [] = (acc, [])
read acc (c ∷ cs) =
    let more = read (acc * 10 + (c - b'0')) cs in if is_digit c then more else (acc, c ∷ cs)

read_digit :
    (acc d : ℕ) (cs : List ℕ) → d < 10 → read acc ((b'0' + d) ∷ cs) ≡ read (acc * 10 + d) cs
unfolding read
read_digit acc d cs h = let e : b'0' + d - b'0' ≡ d = omega arith in ground (arith, e)

read-digits_of : (f n : ℕ) (rest : List ℕ) → n < f → read 0 (digits_of f n ++ rest) ≡ read n rest
unfolding digits_of
read-digits_of zero n rest h = elim h [ ]
read-digits_of (suc f) n rest h = elim (Bool-cases (ltb n 10)) [
  | inl small ↦ rw small (read_digit 0 n rest (ground arith) ∙ (ground arith))
  | inr large ↦
      rw (large, append_assoc)
        (read-digits_of f (n / 10) (((b'0' + n % 10) ∷ []) ++ rest) (ground arith)
          ∙ read_digit (n / 10) (n % 10) rest (omega arith)
          ∙ ap (λ k. read k rest) (omega arith))
]

-- The reader takes a printed number back, before any text.
pub read-decimal : (n : ℕ) (rest : List ℕ) → read 0 (decimal n ++ rest) ≡ read n rest
unfolding decimal
read-decimal n rest = read-digits_of (suc n) n rest (omega arith)
