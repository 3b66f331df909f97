-- ===== src/ScopedStore/Polling.antt =====
-- Reading the mailbox of hlinor_registry/scoped_store.py page by page.
use hlinor_agent_registry.Prelude.{
  ℕ, zero, suc, ◌+◌, ◌*◌, ◌≤◌, ◌<◌, ◌≡◌, refl, sym, ap, ◌∙◌, Bool, List, [], ◌∷◌, ◌++◌, ltb, keep,
  take, All, sort_by, insert_by, Text, Bool-cases, inl, inr, arith,
}
use hlinor_agent_registry.ExecutionScope.{ExecutionScope}
use hlinor_agent_registry.ScopedStore.{MessageRow}
use hlinor_agent_registry.ScopedStore.Mailbox.{sequence_order, is_delivered, page_of}

-- In the order in which they were sent.
abbrev pub IsOrdered : List MessageRow → Type 0
IsOrdered [] = Unit
IsOrdered (m ∷ rows) = All (λ (n : MessageRow). m.sequence < n.sequence) rows × IsOrdered rows

insert_by-least :
    (m : MessageRow) (rows : List MessageRow)
    → All (λ (n : MessageRow). m.sequence < n.sequence) rows
    → insert_by sequence_order m rows ≡ m ∷ rows
unfolding insert_by
insert_by-least m [] h = refl
insert_by-least m (n ∷ rows) h = ground (arith, h.0)

sort_by-ordered : (rows : List MessageRow) → IsOrdered rows → sort_by sequence_order rows ≡ rows
unfolding sort_by
sort_by-ordered [] h = refl
sort_by-ordered (m ∷ rows) h = rw (sort_by-ordered rows h.1) (insert_by-least m rows h.0)

keep-All :
    {A : Type 0} (P : A → Type 0) (test : A → Bool) (xs : List A) → All P xs → All P (keep test xs)
keep-All P test [] h = tt
keep-All P test (x ∷ xs) h = elim (Bool-cases (test x)) [
  | inl e ↦ rw e (h.0, keep-All P test xs h.1)
  | inr e ↦ rw e (keep-All P test xs h.1)
]

pub keep-IsOrdered :
    (test : MessageRow → Bool) (rows : List MessageRow)
    → IsOrdered rows
    → IsOrdered (keep test rows)
keep-IsOrdered test [] h = tt
keep-IsOrdered test (m ∷ rows) h = elim (Bool-cases (test m)) [
  | inl e ↦ rw e (keep-All _ test rows h.0, keep-IsOrdered test rows h.1)
  | inr e ↦ rw e (keep-IsOrdered test rows h.1)
]

abbrev later : ℕ → MessageRow → Bool
later a m = ltb a m.sequence

-- The sequence number to poll from after a page.
abbrev pub last_sequence_of : ℕ → List MessageRow → ℕ
last_sequence_of a [] = a
last_sequence_of a (m ∷ rows) = last_sequence_of m.sequence rows

last_sequence_of-ge :
    (a n : ℕ) (rows : List MessageRow)
    → IsOrdered rows
    → All (λ (m : MessageRow). a < m.sequence) rows
    → a ≤ last_sequence_of a (take n rows)
last_sequence_of-ge a zero rows o h = omega arith
last_sequence_of-ge a (suc n) [] o h = omega arith
last_sequence_of-ge a (suc n) (m ∷ rows) o h =
    omega (arith, h.0, last_sequence_of-ge m.sequence n rows o.1 o.0)

keep-all :
    (a : ℕ) (rows : List MessageRow)
    → All (λ (m : MessageRow). a < m.sequence) rows
    → keep (later a) rows ≡ rows
keep-all a [] h = refl
keep-all a (m ∷ rows) h = ground (arith, h.0, keep-all a rows h.1)

zero_add : (k : ℕ) → 0 + k ≡ k
zero_add k = omega arith

suc_add : (n k : ℕ) → suc n + k ≡ suc (n + k)
suc_add n k = omega arith

zero_mul : (n : ℕ) → 0 ≡ 0 * n
zero_mul n = omega arith

suc_mul : (r n : ℕ) → suc r * n ≡ n + r * n
suc_mul r n = grind arith

take-nil : {A : Type 0} (k : ℕ) → take {A = A} k [] ≡ []
take-nil zero = refl
take-nil (suc k) = refl

take-add :
    (n k a : ℕ) (rows : List MessageRow)
    → IsOrdered rows
    → All (λ (m : MessageRow). a < m.sequence) rows
    → take (n + k) rows
      ≡ take n rows ++ take k (keep (later (last_sequence_of a (take n rows))) rows)
take-add zero k a rows o h = rw (zero_add k, keep-all a rows h) refl
take-add (suc n) k a [] o h = rw (suc_add n k) (sym (take-nil k))
take-add (suc n) k a (m ∷ rows) o h = rw (suc_add n k) (
    ground
      (arith, take-add n k m.sequence rows o.1 o.0, last_sequence_of-ge m.sequence n rows o.1 o.0))

keep-later :
    (s : ExecutionScope) (recipient : Text) (a b : ℕ) (rows : List MessageRow)
    → a ≤ b
    → keep (later b) (keep (is_delivered s recipient a) rows)
      ≡ keep (is_delivered s recipient b) rows
keep-later s recipient a b [] h = refl
keep-later s recipient a b (m ∷ rows) h = ground (arith, keep-later s recipient a b rows h)

-- What a reader has after some polls of a given page size, each from the last number it has seen.
unfoldable pub polls : ExecutionScope → Text → ℕ → ℕ → ℕ → List MessageRow → List MessageRow
unfolding page_of
polls s recipient a n zero rows = []
polls s recipient a n (suc rounds) rows =
    let page = page_of s recipient a n rows in
    page ++ polls s recipient (last_sequence_of a page) n rounds rows

page_of-take :
    (s : ExecutionScope) (recipient : Text) (a n : ℕ) (rows : List MessageRow)
    → IsOrdered rows
    → page_of s recipient a n rows ≡ take n (keep (is_delivered s recipient a) rows)
unfolding page_of
page_of-take s recipient a n rows o =
    ap (take n) (sort_by-ordered _ (keep-IsOrdered (is_delivered s recipient a) rows o))

delivered-later :
    (s : ExecutionScope) (recipient : Text) (a : ℕ) (rows : List MessageRow)
    → All (λ (m : MessageRow). a < m.sequence) (keep (is_delivered s recipient a) rows)
delivered-later s recipient a [] = tt
delivered-later s recipient a (m ∷ rows) = elim (Bool-cases (is_delivered s recipient a m)) [
  | inl e ↦ rw e (ground arith, delivered-later s recipient a rows)
  | inr e ↦ rw e (delivered-later s recipient a rows)
]

-- Polling page by page loses nothing, repeats nothing and keeps the order: after any number of rounds
-- of pages of n, a reader of a mailbox in order has the first `rounds * n` of the messages that are
-- addressed to it in its scope with a number above the one it started from, and no others.
pub polls-delivered :
    (s : ExecutionScope) (recipient : Text) (a n rounds : ℕ) (rows : List MessageRow)
    → IsOrdered rows
    → polls s recipient a n rounds rows ≡ take (rounds * n) (keep (is_delivered s recipient a) rows)
unfolding polls
polls-delivered s recipient a n zero rows o =
    ap (λ (k : ℕ). take k (keep (is_delivered s recipient a) rows)) (zero_mul n)
polls-delivered s recipient a n (suc rounds) rows o =
    let all_of = keep (is_delivered s recipient a) rows in
    let kept = keep-IsOrdered (is_delivered s recipient a) rows o in
    let above = delivered-later s recipient a rows in
    let b = last_sequence_of a (take n all_of) in
    let later_on : keep (later b) all_of ≡ keep (is_delivered s recipient b) rows =
      keep-later s recipient a b rows (last_sequence_of-ge a n all_of kept above) in
    rw (page_of-take s recipient a n rows o, suc_mul rounds n)
      (ap (λ (rest : List MessageRow). take n all_of ++ rest)
          (polls-delivered s recipient b n rounds rows o ∙ ap (take (rounds * n)) (sym later_on))
        ∙ sym (take-add n (rounds * n) a all_of kept above))
