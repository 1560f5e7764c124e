-- ===== src/Edits/Find.antt =====
-- std::string::find and std::string::replace, as src/tool_call/edit_replacers.cpp uses them, and
-- what it is for a text to contain another.
use yac.Common.{
  ℕ, zero, suc, ◌+◌, ◌≤◌, ◌≡◌, refl, sym, ap, ◌∙◌, inl, inr, Bool, true, false, ◌&&◌, Option, none,
  some, List, [], ◌∷◌, ◌++◌, arith, ◌==◌, leb, if◌then◌else◌, length, take, drop, subst,
  length-append, length-drop, Bool-cases, Option-cases,
}
use yac.Edits.{Bytes}

unfoldable pub begins_with : Bytes → Bytes → Bool
begins_with text [] = true
begins_with [] (o ∷ old) = false
begins_with (c ∷ text) (o ∷ old) = c == o && begins_with text old

abbrev pub later : Option ℕ → Option ℕ
later none = none
later (some n) = some (suc n)

-- The first position at which `old` stands.
unfoldable pub index : Bytes → Bytes → Option ℕ
index [] old = if begins_with [] old then some 0 else none
index (c ∷ text) old = if begins_with (c ∷ text) old then some 0 else later (index text old)

abbrev pub shifted : ℕ → Option ℕ → Option ℕ
shifted pos none = none
shifted pos (some n) = some (pos + n)

-- text.find(old, pos)
unfoldable pub find : Bytes → Bytes → ℕ → Option ℕ
find text old pos = if leb pos (length text) then shifted pos (index (drop pos text) old) else none

-- text.replace(pos, count, new_string)
unfoldable pub splice : Bytes → ℕ → ℕ → Bytes → Bytes
splice text pos count new_string = take pos text ++ (new_string ++ drop (pos + count) text)

abbrev pub Contains : Bytes → Bytes → Type 0
Contains text old = (a b : Bytes) × (text ≡ a ++ (old ++ b))

pub drop-append {ℓ} : {A : Type ℓ} (xs ys : List A) → drop (length xs) (xs ++ ys) ≡ ys
drop-append [] ys = refl
drop-append (x ∷ xs) ys = drop-append xs ys

pub take-append {ℓ} : {A : Type ℓ} (xs ys : List A) → take (length xs) (xs ++ ys) ≡ xs
take-append [] ys = refl
take-append (x ∷ xs) ys = ap (λ l. x ∷ l) (take-append xs ys)

drop-same {ℓ} : {A : Type ℓ} {m n : ℕ} (xs : List A) → m ≡ n → drop m xs ≡ drop n xs
drop-same xs e = ap (λ k. drop k xs) e

drop-none {ℓ} : {A : Type ℓ} (n : ℕ) → drop {A = A} n [] ≡ []
drop-none zero = refl
drop-none (suc n) = refl

pub drop-drop {ℓ} : {A : Type ℓ} (m n : ℕ) (xs : List A) → drop n (drop m xs) ≡ drop (m + n) xs
drop-drop zero n xs = drop-same xs (omega arith)
drop-drop (suc m) n [] = drop-none n ∙ sym (drop-none (suc m + n))
drop-drop (suc m) n (x ∷ xs) = drop-drop m n xs ∙ drop-same {m = suc (m + n)} (x ∷ xs) (omega arith)

begins_with-append : (old rest : Bytes) → begins_with (old ++ rest) old ≡ true
unfolding begins_with
begins_with-append [] rest = refl
begins_with-append (o ∷ old) rest = ground (arith, begins_with-append old rest)

pub begins_with→append :
    (text old : Bytes) → begins_with text old ≡ true → (rest : Bytes) × (text ≡ old ++ rest)
unfolding begins_with
begins_with→append text [] h = (text, refl)
begins_with→append [] (o ∷ old) h = ground arith
begins_with→append (c ∷ text) (o ∷ old) h =
    let (rest, e) = begins_with→append text old (ground arith) in (rest, grind arith)

-- What `index` finds: the text before `old`, which does not contain it, and the text after it.
pub record First (text old : Bytes) (n : ℕ) : Type 0 where
  pub before : Bytes
  pub after : Bytes
  pub found : text ≡ before ++ (old ++ after)
  pub position : length before ≡ n
  pub earliest : index before old ≡ none

begins_with-before :
    (text before rest old : Bytes)
    → text ≡ before ++ rest
    → begins_with text old ≡ false
    → begins_with before old ≡ false
unfolding begins_with
begins_with-before text before rest [] e h = h
begins_with-before text [] rest (o ∷ old) e h = refl
begins_with-before [] (c ∷ before) rest (o ∷ old) e h = ground arith
begins_with-before (t ∷ text) (c ∷ before) rest (o ∷ old) e h =
    ground (arith, begins_with-before text before rest old)

later_inv : (o : Option ℕ) {n : ℕ} → later o ≡ some n → (m : ℕ) × (o ≡ some m) × (n ≡ suc m)
later_inv none h = ground arith
later_inv (some m) h = (m, refl, ground arith)

module _ (c : ℕ) (text : Bytes) (o : ℕ) (old : Bytes) where
  First-here : begins_with (c ∷ text) (o ∷ old) ≡ true → First (c ∷ text) (o ∷ old) 0
  unfolding index begins_with
  First-here e =
      let (rest, split) = begins_with→append (c ∷ text) (o ∷ old) e in
      record { before = []; after = rest; found = split; position = refl; earliest = refl }

  First-later :
      {n : ℕ}
      → begins_with (c ∷ text) (o ∷ old) ≡ false
      → First text (o ∷ old) n
      → First (c ∷ text) (o ∷ old) (suc n)
  unfolding index
  First-later h p = record {
    before = c ∷ p.before;
    after = p.after;
    found = split;
    position = ap suc p.position;
    earliest =
        rw (begins_with-before (c ∷ text) (c ∷ p.before) _ (o ∷ old) split h, p.earliest) refl;
  }
    where
      split : c ∷ text ≡ (c ∷ p.before) ++ (o ∷ old ++ p.after)
      split = ap (λ l. c ∷ l) p.found

pub First-of_index :
    (text : Bytes) (o : ℕ) (old : Bytes) {n : ℕ}
    → index text (o ∷ old) ≡ some n
    → First text (o ∷ old) n
unfolding index begins_with
First-of_index [] o old h = ground arith
First-of_index (c ∷ text) o old {n} h = elim (Bool-cases (begins_with (c ∷ text) (o ∷ old))) [
  | inl e ↦
      let at : 0 ≡ n = ground arith in
      subst (First (c ∷ text) (o ∷ old)) at (First-here c text o old e)
  | inr e ↦
      let at : later (index text (o ∷ old)) ≡ some n = ground arith in
      let (m, found, next) = later_inv (index text (o ∷ old)) at in
      subst (First (c ∷ text) (o ∷ old)) (sym next)
        (First-later c text o old e (First-of_index text o old found))
]

index-some :
    (a : Bytes) (o : ℕ) (old b : Bytes)
    → (n : ℕ) × (index (a ++ ((o ∷ old) ++ b)) (o ∷ old) ≡ some n)
unfolding index
index-some [] o old b = (0, rw (begins_with-append (o ∷ old) b) refl)
index-some (c ∷ a) o old b =
    let text = a ++ ((o ∷ old) ++ b) in
    let (n, e) = index-some a o old b in
    elim (Bool-cases (begins_with (c ∷ text) (o ∷ old))) [
      | inl here ↦ (0, rw here refl)
      | inr more ↦ (suc n, rw (more, e) refl)
    ]

-- `index` finds the text wherever it is.
pub index-none :
    (text : Bytes) (o : ℕ) (old : Bytes) → index text (o ∷ old) ≡ none → ¬ Contains text (o ∷ old)
index-none text o old h (a, b, e) =
    let (n, found) = index-some a o old b in
    let at : index text (o ∷ old) ≡ some n = ap (λ t. index t (o ∷ old)) e ∙ found in
    ground (arith, at)

pub find-suffix :
    (before text old : Bytes)
    → find (before ++ text) old (length before) ≡ shifted (length before) (index text old)
unfolding find
find-suffix before text old = rw (fits, drop-append before text) refl
  where
    fits : leb (length before) (length (before ++ text)) ≡ true
    fits = ground (arith, length-append before text)

shifted_zero : (o : Option ℕ) → shifted 0 o ≡ o
shifted_zero none = refl
shifted_zero (some n) = ap some (omega arith)

pub find-start : (text old : Bytes) → find text old 0 ≡ index text old
find-start text old = find-suffix [] text old ∙ shifted_zero (index text old)

pub splice-parts :
    (before old after new_string : Bytes)
    → splice (before ++ (old ++ after)) (length before) (length old) new_string
      ≡ before ++ (new_string ++ after)
unfolding splice
splice-parts before old after new_string =
    let text = before ++ (old ++ after) in
    let tail : drop (length before + length old) text ≡ after =
      sym (drop-drop (length before) (length old) text)
      ∙ ap (drop (length old)) (drop-append before (old ++ after))
      ∙ drop-append old after in
    rw (take-append before (old ++ after), tail) refl

-- What `find` gives is in the text.
pub find-fits :
    (text : Bytes) (o : ℕ) (old : Bytes) (pos : ℕ) {n : ℕ}
    → find text (o ∷ old) pos ≡ some n
    → n + length (o ∷ old) ≤ length text
unfolding find
find-fits text o old pos {n} h = elim (Option-cases (index (drop pos text) (o ∷ old))) [
  | inl e ↦ absurd (ground (arith, h, e))
  | inr (m, e) ↦
      let p = First-of_index (drop pos text) o old e in
      let at : pos + m ≡ n = ground (arith, h, e) in
      omega (
        arith,
        at,
        p.position,
        ap length p.found,
        length-append p.before ((o ∷ old) ++ p.after),
        length-append (o ∷ old) p.after,
        length-drop pos text,
      )
]
