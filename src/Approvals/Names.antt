-- ===== src/Approvals/Names.antt =====
-- Approval ids are never handed out twice while they are pending.
use Prim.Native.String.{String}
use text.Mathlib.Text.{◌==◌}
use text.Mathlib.TextEquality.{eq_iff}
use text.Mathlib.TextLemmas.{append_cancel_left}
use yac.Common.{
  ℕ, suc, ◌<◌, ◌≡◌, refl, Bool, false, none, some, List, [], ◌∷◌, arith, if◌then◌else◌, inl, inr,
  Bool-cases,
}
use yac.Common.Text.{to_string}
use yac.Common.Text.Decimal.{to_string_inj}
use yac.Approvals.{
  Approvals, PendingApproval, init, find, update, erase, emplace, cancel, cancel_all, approval_name,
  request_approval, resolve_tool_approval, resolve_ask_user, cancel_pending, wait_take, open_entry,
  set_approved, set_response,
}

approval_name_inj : (m n : ℕ) → approval_name m ≡ approval_name n → m ≡ n
unfolding approval_name
approval_name_inj m n e =
    to_string_inj m n (append_cancel_left "tool-" (to_string m) (to_string n) e)

-- Every pending id was made from a number below `n`.
abbrev pub Below : ℕ → List PendingApproval → Type 0
Below n [] = Unit {0}
Below n (e ∷ es) = ((k : ℕ) × (k < n) × (e.id ≡ approval_name k)) × Below n es

-- No id stands twice.
abbrev pub Distinct : List PendingApproval → Type 0
Distinct [] = Unit {0}
Distinct (e ∷ es) = (find e.id es ≡ none) × Distinct es

pub record IsValid (s : Approvals) : Type 0 where
  pub below : Below s.next_approval_id s.pending
  pub distinct : Distinct s.pending

pub find_fresh : (n : ℕ) (es : List PendingApproval) → Below n es → find (approval_name n) es ≡ none
unfolding find
find_fresh n [] b = refl
find_fresh n (e ∷ es) ((k, lt, eq), b) =
    ground (arith, find_fresh n es b, eq_iff e.id (approval_name n), approval_name_inj k n)

Below-suc : (n : ℕ) (es : List PendingApproval) → Below n es → Below (suc n) es
Below-suc n [] b = tt
Below-suc n (e ∷ es) ((k, lt, eq), b) = ((k, omega arith, eq), Below-suc n es b)

-- Entries that keep their ids keep both properties.
module _ (f : PendingApproval → PendingApproval)
    (same_id : (e : PendingApproval) → (f e).id ≡ e.id) where
  pub find-update :
      (j k : String) (es : List PendingApproval)
      → find k (update j f es)
        ≡ (if j == k then elim (find k es) [ none ↦ none | some e ↦ some (f e) ] else find k es)
  unfolding find update
  find-update j k [] = ground arith
  find-update j k (e ∷ es) =
      ground (arith, find-update j k es, same_id e, eq_iff e.id j, eq_iff e.id k, eq_iff j k)

  Below-update :
      (n : ℕ) (j : String) (es : List PendingApproval) → Below n es → Below n (update j f es)
  unfolding update
  Below-update n j [] b = tt
  Below-update n j (e ∷ es) ((k, lt, eq), b) = elim (Bool-cases (e.id == j)) [
    | inl h ↦ rw h ((k, lt, rw same_id eq), b)
    | inr h ↦ rw h ((k, lt, eq), Below-update n j es b)
  ]

  Distinct-update :
      (j : String) (es : List PendingApproval) → Distinct es → Distinct (update j f es)
  unfolding update
  Distinct-update j [] d = tt
  Distinct-update j (e ∷ es) (d, ds) = elim (Bool-cases (e.id == j)) [
    | inl h ↦ rw h (rw same_id d, ds)
    | inr h ↦ rw h (
      ground (arith, find-update j e.id es, eq_iff e.id j, eq_iff j e.id),
      Distinct-update j es ds,
    )
  ]

cancel_id : (e : PendingApproval) → (cancel e).id ≡ e.id
cancel_id e = ground arith

pub find-cancel_all :
    (k : String) (es : List PendingApproval)
    → find k (cancel_all es) ≡ elim (find k es) [ none ↦ none | some e ↦ some (cancel e) ]
unfolding find cancel_all
find-cancel_all k [] = refl
find-cancel_all k (e ∷ es) = elim (Bool-cases (e.id == k)) [
  | inl h ↦ rw (cancel_id, h)
  | inr h ↦ rw (cancel_id, h) (find-cancel_all k es)
]

Below-cancel_all : (n : ℕ) (es : List PendingApproval) → Below n es → Below n (cancel_all es)
unfolding cancel_all
Below-cancel_all n [] b = tt
Below-cancel_all n (e ∷ es) ((k, lt, eq), b) = ((k, lt, rw cancel_id eq), Below-cancel_all n es b)

Distinct-cancel_all : (es : List PendingApproval) → Distinct es → Distinct (cancel_all es)
unfolding cancel_all
Distinct-cancel_all [] d = tt
Distinct-cancel_all (e ∷ es) (d, ds) =
    (rw (cancel_id, find-cancel_all) (rw d), Distinct-cancel_all es ds)

pub find-erase_ne :
    (j k : String) (es : List PendingApproval) → (j == k) ≡ false → find k (erase j es) ≡ find k es
unfolding find erase
find-erase_ne j k [] h = refl
find-erase_ne j k (e ∷ es) h =
    ground (arith, find-erase_ne j k es h, eq_iff e.id j, eq_iff e.id k, eq_iff j k)

find-erase_none :
    (j k : String) (es : List PendingApproval) → find k es ≡ none → find k (erase j es) ≡ none
unfolding find erase
find-erase_none j k [] h = refl
find-erase_none j k (e ∷ es) h = ground (arith, find-erase_none j k es)

pub find-erase_self :
    (k : String) (es : List PendingApproval) → Distinct es → find k (erase k es) ≡ none
unfolding find erase
find-erase_self k [] d = refl
find-erase_self k (e ∷ es) (d, ds) = elim (Bool-cases (e.id == k)) [
  | inl h ↦ rw h (let e' : e.id ≡ k = (eq_iff e.id k).0 h in rw e' at d)
  | inr h ↦ rw (h, find, h) (find-erase_self k es ds)
]

Below-erase : (n : ℕ) (j : String) (es : List PendingApproval) → Below n es → Below n (erase j es)
unfolding erase
Below-erase n j [] b = tt
Below-erase n j (e ∷ es) (p, b) = elim (Bool-cases (e.id == j)) [
  | inl h ↦ rw h b
  | inr h ↦ rw h (p, Below-erase n j es b)
]

Distinct-erase : (j : String) (es : List PendingApproval) → Distinct es → Distinct (erase j es)
unfolding erase
Distinct-erase j [] d = tt
Distinct-erase j (e ∷ es) (d, ds) = elim (Bool-cases (e.id == j)) [
  | inl h ↦ rw h ds
  | inr h ↦ rw h (find-erase_none j e.id es d, Distinct-erase j es ds)
]

pub emplace_fresh :
    (e : PendingApproval) (es : List PendingApproval) → find e.id es ≡ none → emplace e es ≡ e ∷ es
unfolding emplace
emplace_fresh e es h = ground arith

-- Every operation keeps the pending ids distinct and made from numbers handed out before.
module _ (s : Approvals) (v : IsValid s) where
  pub request-IsValid : (c n a : String) → IsValid (request_approval s c n a).1
  unfolding request_approval
  request-IsValid c n a = record {
    below =
        rw (emplace_fresh (open_entry (approval_name s.next_approval_id) c n a) s.pending fresh)
          ((s.next_approval_id, omega arith, refl), Below-suc s.next_approval_id s.pending v.below);
    distinct =
        rw (emplace_fresh (open_entry (approval_name s.next_approval_id) c n a) s.pending fresh)
          (fresh, v.distinct);
  }
    where
      fresh : find (approval_name s.next_approval_id) s.pending ≡ none
      fresh = find_fresh s.next_approval_id s.pending v.below

  pub resolve-IsValid : (k : String) (b : Bool) → IsValid (resolve_tool_approval s k b)
  unfolding resolve_tool_approval
  resolve-IsValid k b = record {
    below = Below-update (set_approved b) (λ e. refl) s.next_approval_id k s.pending v.below;
    distinct = Distinct-update (set_approved b) (λ e. refl) k s.pending v.distinct;
  }

  pub answer-IsValid : (k t : String) → IsValid (resolve_ask_user s k t)
  unfolding resolve_ask_user
  answer-IsValid k t = record {
    below = Below-update (set_response t) (λ e. refl) s.next_approval_id k s.pending v.below;
    distinct = Distinct-update (set_response t) (λ e. refl) k s.pending v.distinct;
  }

  pub cancel-IsValid : IsValid (cancel_pending s)
  unfolding cancel_pending
  cancel-IsValid = record {
    below = Below-cancel_all s.next_approval_id s.pending v.below;
    distinct = Distinct-cancel_all s.pending v.distinct;
  }

  pub wait_take-IsValid : (k : String) (stop : Bool) → IsValid (wait_take s k stop).1
  unfolding wait_take
  wait_take-IsValid k stop = record {
    below = Below-erase s.next_approval_id k s.pending v.below;
    distinct = Distinct-erase k s.pending v.distinct;
  }

pub init-IsValid : IsValid init
unfolding init
init-IsValid = record { below = tt; distinct = tt }
