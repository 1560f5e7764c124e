-- ===== src/Common/Text/Decimal.antt =====
-- Distinct numbers have distinct decimal texts.
use Prim.Native.Nat.{ℕ, zero, suc, ◌+◌, ◌/◌, ◌%◌, ◌<◌}
use Prim.Native.String.{String, count}
use text.Mathlib.TextLemmas.{append_inj, length-append}
use text.Mathlib.Text.{◌==◌ as str_eq}
use mathlib.Core.Path.{◌≡◌, refl, sym, ap, ◌∙◌}
use mathlib.Core.Logic.{inl, inr}
use native.Mathlib.Omega.{arith}
use yac.Common.Tests.{◌==◌, if◌then◌else◌, Bool-cases}
use yac.Common.Text.{digit, digits, to_string}

undigit : String → ℕ
undigit s =
    if str_eq s "0"
    then 0
    else if str_eq s "1"
    then 1
    else if str_eq s "2"
    then 2
    else if str_eq s "3"
    then 3
    else if str_eq s "4"
    then 4
    else if str_eq s "5"
    then 5
    else if str_eq s "6"
    then 6
    else if str_eq s "7"
    then 7
    else if str_eq s "8"
    then 8
    else 9

digit_facts : (d : ℕ) → d < 10 → (undigit (digit d) ≡ d) × (count (digit d) ≡ 1)
unfolding undigit digit
digit_facts zero h = (refl, refl)
digit_facts (suc zero) h = (refl, refl)
digit_facts (suc (suc zero)) h = (refl, refl)
digit_facts (suc (suc (suc zero))) h = (refl, refl)
digit_facts (suc (suc (suc (suc zero)))) h = (refl, refl)
digit_facts (suc (suc (suc (suc (suc zero))))) h = (refl, refl)
digit_facts (suc (suc (suc (suc (suc (suc zero)))))) h = (refl, refl)
digit_facts (suc (suc (suc (suc (suc (suc (suc zero))))))) h = (refl, refl)
digit_facts (suc (suc (suc (suc (suc (suc (suc (suc zero)))))))) h = (refl, refl)
digit_facts (suc (suc (suc (suc (suc (suc (suc (suc (suc zero))))))))) h = (refl, refl)
digit_facts (suc (suc (suc (suc (suc (suc (suc (suc (suc (suc d)))))))))) h = absurd (omega arith)

digit_inj : (a b : ℕ) → a < 10 → b < 10 → digit a ≡ digit b → a ≡ b
digit_inj a b p q e = sym (digit_facts a p).0 ∙ ap undigit e ∙ (digit_facts b q).0

-- All digits but the last.
abbrev front : ℕ → ℕ → String
front f n = if n / 10 == 0 then "" else digits f (n / 10)

count-front : (f n : ℕ) → count (digits (suc f) n) ≡ count (front f n) + 1
unfolding digits
count-front f n =
    length-append (front f n) (digit (n % 10))
    ∙ ap (count (front f n) +◌) (digit_facts (n % 10) (omega arith)).1

count_pos : (f n : ℕ) → n < f → 0 < count (digits f n)
count_pos zero n h = absurd (omega arith)
count_pos (suc f) n h = omega (arith, count-front f n)

split_last :
    (f g m n : ℕ)
    → digits (suc f) m ≡ digits (suc g) n
    → (front f m ≡ front g n) × (digit (m % 10) ≡ digit (n % 10))
unfolding digits
split_last f g m n e = append_inj e (omega (arith, count-front f m, count-front g n, ap count e))

front_inj :
    (f g m n : ℕ)
    → m < suc f
    → n < suc g
    → front f m ≡ front g n
    → (m / 10 < f → n / 10 < g → digits f (m / 10) ≡ digits g (n / 10) → m / 10 ≡ n / 10)
    → m / 10 ≡ n / 10
front_inj f g m n p q e ih = elim (Bool-cases (m / 10 == 0)) [
  | inl mz ↦ elim (Bool-cases (n / 10 == 0)) [
    | inl nz ↦ ground arith
    | inr ns ↦ absurd (
        let e' : "" ≡ digits g (n / 10) = rw (mz, ns) at e in
        let c = ap count e' in
        let k : n / 10 < g = ground arith in omega (arith, c, count_pos g (n / 10) k))
  ]
  | inr ms ↦ elim (Bool-cases (n / 10 == 0)) [
    | inl nz ↦ absurd (
        let e' : digits f (m / 10) ≡ "" = rw (ms, nz) at e in
        let c = ap count e' in
        let k : m / 10 < f = ground arith in omega (arith, c, count_pos f (m / 10) k))
    | inr ns ↦ ih (ground arith) (ground arith) (rw (ms, ns) at e)
  ]
]

digits_inj : (f g m n : ℕ) → m < f → n < g → digits f m ≡ digits g n → m ≡ n
digits_inj zero g m n p q e = absurd (omega arith)
digits_inj (suc f) zero m n p q e = absurd (omega arith)
digits_inj (suc f) (suc g) m n p q e =
    let (fronts, lasts) = split_last f g m n e in
    let last = digit_inj (m % 10) (n % 10) (omega arith) (omega arith) lasts in
    let rest =
      front_inj f g m n p q fronts
        (λ pm qn. digits_inj f g (m / 10) (n / 10) (omega arith) (omega arith)) in
    omega (arith, rest, last)

pub to_string_inj : (m n : ℕ) → to_string m ≡ to_string n → m ≡ n
unfolding to_string
to_string_inj m n e = digits_inj (suc m) (suc n) m n (omega arith) (omega arith) e
