-- ===== src/VoiceClock/Hour/Spoken.antt =====
-- What is said is what is struck, and previews are heard.
use Prim.Native.String.{String, ◌++◌ as join}
use familyplanner.Prelude.{
  ℕ, zero, suc, ◌+◌, ◌%◌, ◌<◌, ◌≡◌, refl, ◌∙◌, ap, arith, Bool, true, &&-false, Option, none, some,
  if◌then◌else◌, ◌==◌, length, get_elem?,
}
use familyplanner.VoiceClock.{westminster, strikes, Sound, Chime, snoozed, run_chime}
use familyplanner.VoiceClock.Announce.{length-westminster}
use familyplanner.VoiceClock.Hour.{hour_names, or_undefined, dutch_hour, test_quarter, test_hour}

-- The Dutch words for the numbers of a clock face.
pub data Word : ℕ → String → Type 0 where
  one : Word 1 "één"
  two : Word 2 "twee"
  three : Word 3 "drie"
  four : Word 4 "vier"
  five : Word 5 "vijf"
  six : Word 6 "zes"
  seven : Word 7 "zeven"
  eight : Word 8 "acht"
  nine : Word 9 "negen"
  ten : Word 10 "tien"
  eleven : Word 11 "elf"
  twelve : Word 12 "twaalf"

-- For the hour `h` the script says the word of `n`, and "uur".
pub record IsNamed (h n : ℕ) : Type 0 where
  pub word : String
  pub said : dutch_hour h ≡ join word " uur"
  pub meant : Word n word

said-at :
    (r : ℕ)
    → r < 12
    → (w : String) × (get_elem? hour_names r ≡ some w) × Word (if r == 0 then 12 else r) w
unfolding hour_names
said-at zero l = ("twaalf", refl, twelve)
said-at (suc zero) l = ("één", refl, one)
said-at (suc (suc zero)) l = ("twee", refl, two)
said-at (suc (suc (suc zero))) l = ("drie", refl, three)
said-at (suc (suc (suc (suc zero)))) l = ("vier", refl, four)
said-at (suc (suc (suc (suc (suc zero))))) l = ("vijf", refl, five)
said-at (suc (suc (suc (suc (suc (suc zero)))))) l = ("zes", refl, six)
said-at (suc (suc (suc (suc (suc (suc (suc zero))))))) l = ("zeven", refl, seven)
said-at (suc (suc (suc (suc (suc (suc (suc (suc zero)))))))) l = ("acht", refl, eight)
said-at (suc (suc (suc (suc (suc (suc (suc (suc (suc zero))))))))) l = ("negen", refl, nine)
said-at (suc (suc (suc (suc (suc (suc (suc (suc (suc (suc zero)))))))))) l = ("tien", refl, ten)
said-at (suc (suc (suc (suc (suc (suc (suc (suc (suc (suc (suc zero))))))))))) l =
    ("elf", refl, eleven)
said-at (suc (suc (suc (suc (suc (suc (suc (suc (suc (suc (suc (suc r)))))))))))) l =
    absurd (omega arith)

-- At a full hour the clock strikes, after the sixteen bells of its chimes, as many times as the number is
-- whose Dutch word it says, followed by "uur", for that hour.
pub spoken_hour_struck : (h : ℕ) → (n : ℕ) × (length (westminster 0 h).0 ≡ 16 + n) × IsNamed h n
unfolding dutch_hour or_undefined strikes
spoken_hour_struck h =
    let r = h % 12 in
    let e : (h % 12 + 12) % 12 ≡ r = omega arith in
    let (w, said, meant) = said-at r (omega arith) in
    (
      strikes h,
      length-westminster 0 h (omega arith) ∙ ground arith,
      record {
        word = w;
        said = ap (λ o. join (or_undefined o) " uur") (ap (get_elem? hour_names) e ∙ said);
        meant = meant;
      },
    )

preview-run_chime :
    (stored : Option String) (d : Chime) → d.preview ≡ true → run_chime stored d ≡ run_chime none d
unfolding run_chime snoozed
preview-run_chime stored d e = rw (e, &&-false (snoozed stored)) refl

-- Previews sound whether the chimes are snoozed or not.
pub previews_sound :
    (stored : Option String) (sound : Sound) (quarter now : ℕ) (announce attention : Bool)
    → (run_chime stored (test_quarter sound quarter now)
        ≡ run_chime none (test_quarter sound quarter now))
      × (run_chime stored (test_hour sound announce attention now)
          ≡ run_chime none (test_hour sound announce attention now))
unfolding test_quarter test_hour
previews_sound stored sound quarter now announce attention = (
  preview-run_chime stored (test_quarter sound quarter now) refl,
  preview-run_chime stored (test_hour sound announce attention now) refl,
)
