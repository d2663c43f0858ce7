-- ===== src/Kiosk/Countdown/Laws.antt =====
-- The countdown's text read back: the text determines the seconds that remain.
use familyplanner.Prelude.{
  ℕ, ◌+◌, ◌*◌, ◌/◌, ◌%◌, ◌≡◌, refl, ◌∙◌, ap, false, Option, none, some, [], ◌∷◌, ◌++◌, arith, ltb,
  ◌==◌, if◌then◌else◌, ◌⊎◌, ◌≤ℤ◌, ℤ, pos, inl, inr, Bool-cases,
}
use familyplanner.Kiosk.Countdown.{Text, pad, remaining, format, fmt_countdown}
use familyplanner.Kiosk.Countdown.Digits.{decimal, is_digit, read, read-decimal}

infixl 5 ◌>>=◌
abbrev pub ◌>>=◌ : {A B : Type 0} → Option A → (A → Option B) → Option B
none >>= f = none
some a >>= f = f a

unfoldable pub after : ℕ → ℕ × Text → Option (ℕ × Text)
after c (n, []) = none
after c (n, x ∷ xs) = if x == c then some (n, xs) else none

-- Reads a number, then the character `c`.
unfoldable pub read_unit : ℕ → Text → Option (ℕ × Text)
read_unit c t = after c (read 0 t)

unfoldable pub skip_space : Text → Option Text
skip_space [] = none
skip_space (x ∷ xs) = if x == b' ' then some xs else none

-- The seconds that a text such as `1d 02u 03m 04s` stands for.
pub parse : Text → Option ℕ
parse t = do
  (d, t₁) ← read_unit b'd' t
  t₂ ← skip_space t₁
  (h, t₃) ← read_unit b'u' t₂
  t₄ ← skip_space t₃
  (m, t₅) ← read_unit b'm' t₄
  t₆ ← skip_space t₅
  (s, t₇) ← read_unit b's' t₆
  some (d * 86400 + h * 3600 + m * 60 + s)

pub read-unit_char :
    (c n : ℕ) (rest : Text) → is_digit c ≡ false → read n (c ∷ rest) ≡ (n, c ∷ rest)
unfolding read
read-unit_char c n rest h = rw h

pub read_unit-decimal :
    (c n : ℕ) (rest : Text)
    → is_digit c ≡ false
    → read_unit c (decimal n ++ (c ∷ rest)) ≡ some (n, rest)
unfolding read_unit after
read_unit-decimal c n rest h =
    rw (read-decimal n (c ∷ rest) ∙ read-unit_char c n rest h) (ground arith)

pub read-pad : (n : ℕ) (rest : Text) → read 0 (pad n ++ rest) ≡ read 0 (decimal n ++ rest)
unfolding pad read
read-pad n rest = elim (Bool-cases (ltb n 10)) [ inl e ↦ rw e | inr e ↦ rw e ]

pub read_unit-pad :
    (c n : ℕ) (rest : Text)
    → is_digit c ≡ false
    → read_unit c (pad n ++ (c ∷ rest)) ≡ some (n, rest)
unfolding read_unit after
read_unit-pad c n rest h =
    rw (read-pad n (c ∷ rest) ∙ read-decimal n (c ∷ rest) ∙ read-unit_char c n rest h)
      (ground arith)

total :
    (s : ℕ)
    → s / 86400 * 86400
        + s % 86400 / 3600 * 3600
        + s % 86400 % 3600 / 60 * 60
        + s % 86400 % 3600 % 60
      ≡ s
total s = omega arith

-- Reading the text of `s` seconds gives `s` back.
parse-format : (s : ℕ) → parse (format s) ≡ some s
unfolding parse format skip_space
parse-format s =
    let h = s % 86400 / 3600 in
    let m = s % 86400 % 3600 / 60 in
    let sec = s % 86400 % 3600 % 60 in
    let ms = b'm' ∷ b' ' ∷ (pad sec ++ (b's' ∷ [])) in
    let us = b'u' ∷ b' ' ∷ (pad m ++ ms) in
    rw (read_unit-decimal b'd' (s / 86400) (b' ' ∷ (pad h ++ us)) refl) (
      rw (read_unit-pad b'u' h (b' ' ∷ (pad m ++ ms)) refl) (
        rw (read_unit-pad b'm' m (b' ' ∷ (pad sec ++ (b's' ∷ []))) refl)
          (rw (read_unit-pad b's' sec [] refl) (ap some (total s)))))

-- `s` seconds lie ahead, or none do.
abbrev pub Ahead : ℤ → ℕ → ℕ → Type 0
Ahead target now_ms s =
    (target ≡ pos (now_ms / 1000 + s)) ⊎ ((target ≤ℤ pos (now_ms / 1000)) × (s ≡ 0))

remaining_lem : (target : ℤ) (now_ms s : ℕ) → Ahead target now_ms s → remaining target now_ms ≡ s
unfolding remaining
remaining_lem target now_ms s h = ground arith

-- What a viewer reads off the countdown is the time that remains, in whole seconds: the difference
-- while the target lies ahead, and 0 from then on.
pub parse-fmt_countdown :
    (target : ℤ) (now_ms s : ℕ)
    → Ahead target now_ms s
    → parse (fmt_countdown target now_ms) ≡ some s
unfolding fmt_countdown
parse-fmt_countdown target now_ms s h = rw (remaining_lem target now_ms s h) (parse-format s)
