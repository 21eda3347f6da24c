-- ===== src/Live/Stdin/Feed.antt =====
-- The line decoder as a machine that takes one byte after the other.
use samara.Prelude.{
  ℕ, ◌≡◌, refl, sym, subst, ◌∙◌, ap, false, Option, none, some, List, [], ◌∷◌, ◌++◌, ◌==◌, All,
  All-snoc, append_assoc, append-nil, if_ind, if◌then◌else◌, Bool-cases, inl, inr,
}
use samara.Live.Stdin.{Bytes, newline, split_step, split_last, cut_lines}

-- The reference: one byte after the other, with the complete lines and what is left.
unfoldable pub feed : Bytes → Bytes → Bytes × List Bytes
feed pending [] = (pending, [])
feed pending (b ∷ bs) =
    let (rest, lines) = feed [] bs in
    let longer = feed (pending ++ b ∷ []) bs in
    if b == newline then (rest, pending ∷ lines) else longer

abbrev pub HasNoNewline : Bytes → Type 0
HasNoNewline bytes = All (λ b. (b == newline) ≡ false) bytes

none-some : {A : Type 0} {a : A} → ¬ (none ≡ some a)
none-some e = cc

some-eq : {A : Type 0} {a b : A} → some a ≡ some b → a ≡ b
some-eq e = cc

abbrev pub Feeds : Bytes → Bytes → Bytes × List Bytes → Type 0
Feeds p bs r = feed p bs ≡ r

none-step :
    (p : Bytes) (b : ℕ) (bs : Bytes) (found : Option (Bytes × Bytes))
    → ((q : Bytes) → found ≡ none → Feeds q bs (q ++ bs, []))
    → split_step b bs found ≡ none
    → Feeds p (b ∷ bs) (p ++ b ∷ bs, [])
unfolding feed split_step
none-step p b bs none ih e = elim (Bool-cases (b == newline)) [
  | inl h ↦ absurd (none-some (sym e ∙ ap (λ t. if t then some (b ∷ [], bs) else none) h))
  | inr h ↦
      ap (λ t. if t then ((feed [] bs).0, p ∷ (feed [] bs).1) else feed (p ++ b ∷ []) bs) h
      ∙ ih (p ++ b ∷ []) refl
      ∙ ap (λ q. (q, [])) (append_assoc p (b ∷ []) bs)
]
none-step p b bs (some (complete, rest)) ih e = cc

pub feed-none : (p bs : Bytes) → split_last bs ≡ none → Feeds p bs (p ++ bs, [])
unfolding feed split_last
feed-none p [] e = ap (λ q. (q, [])) (sym (append-nil p))
feed-none p (b ∷ bs) e = none-step p b bs (split_last bs) (λ q h. feed-none q bs h) e

-- The first byte of a split input, by what is found after it.
some-step :
    (p : Bytes) (b : ℕ) (bs : Bytes) (found : Option (Bytes × Bytes)) (s : Bytes × Bytes)
    → split_last bs ≡ found
    → ((q : Bytes) (t : Bytes × Bytes) → split_last bs ≡ some t → Feeds q bs (t.1, cut_lines q t.0))
    → split_step b bs found ≡ some s
    → Feeds p (b ∷ bs) (s.1, cut_lines p s.0)
unfolding feed split_step cut_lines
some-step p b bs none s f ih e = elim (Bool-cases (b == newline)) [
  | inl h ↦
      subst (λ t. Feeds p (b ∷ bs) (t.1, cut_lines p t.0))
        (some-eq (sym (ap (λ t. if t then some (b ∷ [], bs) else none) h) ∙ e))
        (ap (λ t. if t then ((feed [] bs).0, p ∷ (feed [] bs).1) else feed (p ++ b ∷ []) bs) h
          ∙ ap (λ r. (r.0, p ∷ r.1)) (feed-none [] bs f)
          ∙ sym (ap (λ t. (bs, if t then p ∷ [] else cut_lines (p ++ b ∷ []) [])) h))
  | inr h ↦ absurd (none-some (sym (ap (λ t. if t then some (b ∷ [], bs) else none) h) ∙ e))
]
some-step p b bs (some (complete, rest)) s f ih e =
    subst (λ t. Feeds p (b ∷ bs) (t.1, cut_lines p t.0)) (some-eq e)
      (elim (Bool-cases (b == newline)) [
        | inl h ↦ rw h (ap (λ r. (r.0, p ∷ r.1)) (ih [] (complete, rest) f))
        | inr h ↦ rw h (ih (p ++ b ∷ []) (complete, rest) f)
      ])

pub feed-some :
    (p bs : Bytes) (s : Bytes × Bytes) → split_last bs ≡ some s → Feeds p bs (s.1, cut_lines p s.0)
unfolding split_last
feed-some p [] s e = cc
feed-some p (b ∷ bs) s e = some-step p b bs (split_last bs) s refl (λ q t h. feed-some q bs t h) e

pub cut_lines-prefix :
    (c p h : Bytes) → HasNoNewline p → cut_lines c (p ++ h) ≡ cut_lines (c ++ p) h
unfolding cut_lines
cut_lines-prefix c [] h f = ap (λ q. cut_lines q h) (sym (append-nil c))
cut_lines-prefix c (b ∷ p) h f =
    ap (λ t. if t then c ∷ cut_lines [] (p ++ h) else cut_lines (c ++ b ∷ []) (p ++ h)) f.0
    ∙ cut_lines-prefix (c ++ b ∷ []) p h f.1
    ∙ ap (λ q. cut_lines q h) (append_assoc c (b ∷ []) p)

pub feed-append :
    (p a b : Bytes)
    → feed p (a ++ b) ≡ ((feed (feed p a).0 b).0, (feed p a).1 ++ (feed (feed p a).0 b).1)
unfolding feed
feed-append p [] b = refl
feed-append p (x ∷ a) b = elim (Bool-cases (x == newline)) [
  | inl h ↦ rw h (ap (λ r. (r.0, p ∷ r.1)) (feed-append [] a b))
  | inr h ↦ rw h (feed-append (p ++ x ∷ []) a b)
]

pub feed-HasNoNewline : (p bs : Bytes) → HasNoNewline p → HasNoNewline (feed p bs).0
unfolding feed
feed-HasNoNewline p [] f = f
feed-HasNoNewline p (b ∷ bs) f =
    if_ind (λ (r : Bytes × List Bytes). HasNoNewline r.0) (b == newline)
      (λ _. feed-HasNoNewline [] bs tt)
      (λ h. feed-HasNoNewline (p ++ b ∷ []) bs (All-snoc _ p b f h))
