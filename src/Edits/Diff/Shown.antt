-- ===== src/Edits/Diff/Shown.antt =====
-- What the ranges of a diff show is what they cover.
use yac.Common.{
  ℕ, suc, ◌+◌, ◌-◌, ◌≤◌, ◌<◌, ◌≡◌, refl, sym, ap, ◌∙◌, Bool, true, false, ◌&&◌, ◌||◌, List, [], ◌∷◌,
  ◌++◌, arith, leb, if◌then◌else◌, length, take, drop, append-nil, take-append-drop, length-take,
  length-drop,
}
use yac.Edits.Diff.{DiffOp, shown}

-- The items at the places that a test picks.
unfoldable pub pick {ℓ} : {A : Type ℓ} → (ℕ → Bool) → ℕ → List A → List A
pick p k [] = []
pick p k (x ∷ xs) = if p k then x ∷ pick p (k + 1) xs else pick p (k + 1) xs

-- Two tests that agree on the places of a list.
abbrev pub Agree : ℕ → ℕ → (ℕ → Bool) → (ℕ → Bool) → Type 0
Agree k n p q = (i : ℕ) → k ≤ i → i < n → p i ≡ q i

module _ {ℓ} {A : Type ℓ} where
  if-append :
      (b : Bool) (x : A) (xs ys : List A)
      → (if b then x ∷ (xs ++ ys) else xs ++ ys) ≡ (if b then x ∷ xs else xs) ++ ys
  if-append true x xs ys = refl
  if-append false x xs ys = refl

  pick-append :
      (p : ℕ → Bool) (k : ℕ) (xs ys : List A)
      → pick p k (xs ++ ys) ≡ pick p k xs ++ pick p (k + length xs) ys
  unfolding pick
  pick-append p k [] ys = ap (λ n. pick p n ys) (omega arith)
  pick-append p k (x ∷ xs) ys =
      let shift : k + suc (length xs) ≡ k + 1 + length xs = omega arith in
      rw (shift, pick-append p (k + 1) xs ys)
        (if-append (p k) x (pick p (k + 1) xs) (pick p (k + 1 + length xs) ys))

  pub pick_cong :
      (p q : ℕ → Bool) (k : ℕ) (xs : List A)
      → Agree k (k + length xs) p q
      → pick p k xs ≡ pick q k xs
  unfolding pick
  pick_cong p q k [] h = refl
  pick_cong p q k (x ∷ xs) h =
      rw
        (
          h k (omega arith) (omega arith),
          pick_cong p q (k + 1) xs (λ i lo hi. h i (omega arith) (omega arith)),
        )
        refl

  pick-none : (k : ℕ) (xs : List A) → pick (λ i. false) k xs ≡ []
  unfolding pick
  pick-none k [] = refl
  pick-none k (x ∷ xs) = pick-none (k + 1) xs

  pub pick-all : (k : ℕ) (xs : List A) → pick (λ i. true) k xs ≡ xs
  unfolding pick
  pick-all k [] = refl
  pick-all k (x ∷ xs) = ap (λ l. x ∷ l) (pick-all (k + 1) xs)

  pick-nothing :
      (p : ℕ → Bool) (k : ℕ) (xs : List A)
      → Agree k (k + length xs) p (λ i. false)
      → pick p k xs ≡ []
  pick-nothing p k xs h = pick_cong p (λ i. false) k xs h ∙ pick-none k xs

  pick-everything :
      (p : ℕ → Bool) (k : ℕ) (xs : List A)
      → Agree k (k + length xs) p (λ i. true)
      → pick p k xs ≡ xs
  pick-everything p k xs h = pick_cong p (λ i. true) k xs h ∙ pick-all k xs

  pick-cut :
      (p : ℕ → Bool) (k n : ℕ) (xs : List A)
      → n ≤ length xs
      → pick p k xs ≡ pick p k (take n xs) ++ pick p (k + n) (drop n xs)
  pick-cut p k n xs le =
      let long : length (take n xs) ≡ n = omega (arith, length-take n xs) in
      ap (pick p k) (sym (take-append-drop n xs))
      ∙ pick-append p k (take n xs) (drop n xs)
      ∙ ap (λ m. pick p k (take n xs) ++ pick p (k + m) (drop n xs)) long

abbrev pub covers : ℕ × ℕ → ℕ → Bool
covers (start, end) k = leb start k && leb k end

unfoldable pub covered : List (ℕ × ℕ) → ℕ → Bool
covered [] k = false
covered (r ∷ rs) k = covers r k || covered rs k

-- The ranges, the last one first, lie apart and within the list.
unfoldable pub Apart : ℕ → List (ℕ × ℕ) → Type 0
Apart size [] = Unit {0}
Apart size ((start, end) ∷ rs) = (start ≤ end) × (end < size) × Apart start rs

covered_above :
    (bound : ℕ) (rs : List (ℕ × ℕ)) (k : ℕ) → Apart bound rs → bound ≤ k → covered rs k ≡ false
unfolding covered Apart
covered_above bound [] k h le = refl
covered_above bound ((start, end) ∷ rs) k (a, b, c) le =
    ground (arith, covered_above start rs k c (omega arith))

module _ (start end : ℕ) (rs : List (ℕ × ℕ)) (i : ℕ) where
  covered_before : i < start → covered ((start, end) ∷ rs) i ≡ covered rs i
  unfolding covered
  covered_before h = ground arith

  covered_within : start ≤ i → i ≤ end → covered ((start, end) ∷ rs) i ≡ true
  unfolding covered
  covered_within lo hi = ground arith

pub shown-pick :
    (ops : List DiffOp) (rs : List (ℕ × ℕ)) {bound : ℕ}
    → Apart bound rs
    → bound ≤ length ops
    → shown ops rs ≡ pick (covered rs) 0 ops
unfolding shown Apart
shown-pick ops [] h le =
    sym (pick-nothing (covered []) 0 ops (λ i lo hi. covered_above 0 [] i tt lo))
shown-pick ops ((start, end) ∷ rs) (inside, below, apart) le =
    let new = covered ((start, end) ∷ rs) in
    let old = covered rs in
    let m = end + 1 - start in
    let first = take start ops in
    let rest = drop start ops in
    let long : length first ≡ start = omega (arith, length-take start ops) in
    let size = length-drop start ops in
    let shown_before : shown ops rs ≡ pick old 0 first =
      shown-pick ops rs apart (omega arith)
      ∙ pick-cut old 0 start ops (omega arith)
      ∙ ap (λ l. pick old 0 first ++ l)
          (pick-nothing old (0 + start) rest
            (λ i lo hi. covered_above start rs i apart (omega arith)))
      ∙ append-nil (pick old 0 first) in
    let before : pick new 0 first ≡ pick old 0 first =
      pick_cong new old 0 first (λ i lo hi. covered_before start end rs i (omega arith)) in
    let within : pick new (0 + start) (take m rest) ≡ take m rest =
      pick-everything new (0 + start) (take m rest) (λ i lo hi.
        covered_within start end rs i (omega arith) (omega (arith, length-take m rest))) in
    let behind : pick new (0 + start + m) (drop m rest) ≡ [] =
      pick-nothing new (0 + start + m) (drop m rest) (λ i lo hi.
        covered_above (end + 1) ((start, end) ∷ rs) i (inside, omega arith, apart) (omega arith)) in
    ap (λ l. l ++ take m rest) shown_before
    ∙ ap (λ l. pick old 0 first ++ l) (sym (append-nil (take m rest)))
    ∙ rw (sym before, sym within, sym behind)
        (sym (
          pick-cut new 0 start ops (omega arith)
          ∙ ap (λ l. pick new 0 first ++ l)
              (pick-cut new (0 + start) m rest (omega (arith, size)))))
