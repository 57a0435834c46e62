-- ===== src/Encoding/Best.antt =====
-- The choice of `_find_longest_prefix_match` among the candidates of a history.
use trajproxy.Base.{
  ◌≤◌, ◌≡◌, ap, true, false, none, some, List, [], ◌∷◌, leb, All, arith, Bool-cases, inl, inr,
  leb→le, leb→lt,
}
use mathlib.Core.Path.{transport}
use trajproxy.Texts.{Text}
use trajproxy.Encoding.{
  Candidate, token_count, insert_by_count, sort_by_count, matches, first_match,
  find_longest_prefix_match,
}

abbrev Sorted : List Candidate → Type 0
Sorted [] = Unit
Sorted (c ∷ cs) = All (λ d. token_count d ≤ token_count c) cs × Sorted cs

-- `d` does not match, or is no better than `c`.
abbrev pub Fits : Text → Candidate → Candidate → Type 0
Fits text c d = matches text d ≡ true → token_count d ≤ token_count c

All-map :
    {P Q : Candidate → Type 0}
    → ((c : Candidate) → P c → Q c)
    → (cs : List Candidate) → All P cs
    → All Q cs
All-map f [] h = tt
All-map f (c ∷ cs) h = (f c h.0, All-map f cs h.1)

All-insert :
    (P : Candidate → Type 0) (c : Candidate) (cs : List Candidate)
    → P c
    → All P cs
    → All P (insert_by_count c cs)
unfolding insert_by_count
All-insert P c [] p h = (p, tt)
All-insert P c (d ∷ cs) p h = elim (Bool-cases (leb (token_count d) (token_count c))) [
  | inl e ↦ rw (e, insert_by_count) (p, h)
  | inr e ↦ rw (e, insert_by_count) (h.0, All-insert P c cs p h.1)
]

insert-All :
    (P : Candidate → Type 0) (c : Candidate) (cs : List Candidate)
    → All P (insert_by_count c cs)
    → P c × All P cs
unfolding insert_by_count
insert-All P c [] h = h
insert-All P c (d ∷ cs) h = elim (Bool-cases (leb (token_count d) (token_count c))) [
  | inl e ↦ split-true e h
  | inr e ↦ split-false e h (λ q. insert-All P c cs q)
]
  where
    split-true :
        leb (token_count d) (token_count c) ≡ true
        → All P (insert_by_count c (d ∷ cs))
        → P c × All P (d ∷ cs)
    split-true e q = rw (e, insert_by_count) at q

    split-false :
        leb (token_count d) (token_count c) ≡ false
        → All P (insert_by_count c (d ∷ cs))
        → (All P (insert_by_count c cs) → P c × All P cs)
        → P c × All P (d ∷ cs)
    split-false e q below =
        let q' : All P (d ∷ insert_by_count c cs) = rw (e, insert_by_count) at q in
        let (p, rest) = below q'.1 in (p, (q'.0, rest))

Sorted-insert : (c : Candidate) (cs : List Candidate) → Sorted cs → Sorted (insert_by_count c cs)
unfolding insert_by_count
Sorted-insert c [] h = (tt, tt)
Sorted-insert c (d ∷ cs) h = elim (Bool-cases (leb (token_count d) (token_count c))) [
  | inl e ↦
      let le = leb→le (token_count d) (token_count c) e in
      rw (e, insert_by_count) ((le, All-map (λ x q. omega (arith, q, le)) cs h.0), h)
  | inr e ↦
      let lt = leb→lt (token_count d) (token_count c) e in
      rw (e, insert_by_count)
        (
          All-insert (λ x. token_count x ≤ token_count d) c cs (omega (arith, lt)) h.0,
          Sorted-insert c cs h.1,
        )
]

Sorted-sort : (cs : List Candidate) → Sorted (sort_by_count cs)
unfolding sort_by_count
Sorted-sort [] = tt
Sorted-sort (c ∷ cs) = Sorted-insert c (sort_by_count cs) (Sorted-sort cs)

All-sort : (P : Candidate → Type 0) (cs : List Candidate) → All P cs → All P (sort_by_count cs)
unfolding sort_by_count
All-sort P [] h = tt
All-sort P (c ∷ cs) h = All-insert P c (sort_by_count cs) h.0 (All-sort P cs h.1)

sort-All : (P : Candidate → Type 0) (cs : List Candidate) → All P (sort_by_count cs) → All P cs
unfolding sort_by_count
sort-All P [] h = tt
sort-All P (c ∷ cs) h =
    let (p, rest) = insert-All P c (sort_by_count cs) h in (p, sort-All P cs rest)

first_match-best :
    (text : Text) (cs : List Candidate) (c : Candidate)
    → Sorted cs
    → first_match text cs ≡ some c
    → (matches text c ≡ true) × All (Fits text c) cs
unfolding first_match
first_match-best text [] c s e = ground (arith, e)
first_match-best text (d ∷ cs) c s e = elim (Bool-cases (matches text d)) [
  | inl is ↦
      let same : d ≡ c = ground (arith, e, is) in
      (
        ground (arith, same, is),
        transport (ap (λ x. All (Fits text x) (d ∷ cs)) same)
            ((λ m. omega arith), All-map (λ x le m. le) cs s.0),
      )
  | inr differs ↦
      let (m, best) = first_match-best text cs c s.1 (ground (arith, e, differs)) in
      (m, ((λ m'. ground (arith, differs, m')), best))
]

first_match-none :
    (text : Text) (cs : List Candidate)
    → first_match text cs ≡ none
    → All (λ d. matches text d ≡ false) cs
unfolding first_match
first_match-none text [] e = tt
first_match-none text (d ∷ cs) e = elim (Bool-cases (matches text d)) [
  | inl is ↦ ground (arith, e, is)
  | inr differs ↦ (differs, first_match-none text cs (ground (arith, e, differs)))
]

first_match-All :
    (P : Candidate → Type 0) (text : Text) (cs : List Candidate) (c : Candidate)
    → All P cs
    → first_match text cs ≡ some c
    → P c
unfolding first_match
first_match-All P text [] c h e = ground (arith, e)
first_match-All P text (d ∷ cs) c h e = elim (Bool-cases (matches text d)) [
  | inl is ↦ transport (ap P (ground (arith, e, is))) h.0
  | inr differs ↦ first_match-All P text cs c h.1 (ground (arith, e, differs))
]

-- The candidate that is found matches the text, and no candidate of the history that matches the
-- text has more tokens.
pub find_longest_prefix_match-best :
    (text : Text) (history : List Candidate) (c : Candidate)
    → find_longest_prefix_match text history ≡ some c
    → (matches text c ≡ true) × All (Fits text c) history
unfolding find_longest_prefix_match
find_longest_prefix_match-best text history c e =
    let (m, best) = first_match-best text (sort_by_count history) c (Sorted-sort history) e in
    (m, sort-All (Fits text c) history best)

-- If nothing is found, no candidate of the history matches the text.
pub find_longest_prefix_match-none :
    (text : Text) (history : List Candidate)
    → find_longest_prefix_match text history ≡ none
    → All (λ d. matches text d ≡ false) history
unfolding find_longest_prefix_match
find_longest_prefix_match-none text history e =
    sort-All (λ d. matches text d ≡ false) history (first_match-none text (sort_by_count history) e)

-- What holds of every candidate of the history holds of the one that is found.
pub find_longest_prefix_match-All :
    (P : Candidate → Type 0) (text : Text) (history : List Candidate) (c : Candidate)
    → All P history
    → find_longest_prefix_match text history ≡ some c
    → P c
unfolding find_longest_prefix_match
find_longest_prefix_match-All P text history c h e =
    first_match-All P text (sort_by_count history) c (All-sort P history h) e
