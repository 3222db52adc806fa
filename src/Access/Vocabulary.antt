-- ===== src/Access/Vocabulary.antt =====
-- core/authorization.py, `_operations_json`: the list that a grant stores names the operations asked
-- for.
use mirror_memory.Prelude.{
  String, Bool, true, List, [], ◌∷◌, ◌≡◌, refl, ap, ◌∙◌, sym, inl, inr, Bool-cases, some, some_eq,
  ◌||◌, all, and-true, arith,
}
use mirror_memory.Prelude.Text.{one_of, str_leb, str_eq, eq_iff}
use mirror_memory.Prelude.Sort.{sort, insert}
use mirror_memory.Access.Authorize.{is_operation}
use mirror_memory.Access.Grants.{operations_json, distinct}

one_of-insert :
    (x y : String) (ys : List String) → one_of x (insert str_leb y ys) ≡ (str_eq x y || one_of x ys)
unfolding insert
one_of-insert x y [] = refl
one_of-insert x y (z ∷ zs) = ground (arith, one_of-insert x y zs)

one_of-sort : (x : String) (ys : List String) → one_of x (sort str_leb ys) ≡ one_of x ys
unfolding sort
one_of-sort x [] = refl
one_of-sort x (y ∷ ys) =
    one_of-insert x y (sort str_leb ys) ∙ ap (λ b. str_eq x y || b) (one_of-sort x ys)

pub one_of-all :
    (p : String → Bool) (x : String) (ys : List String)
    → all p ys ≡ true
    → one_of x ys ≡ true
    → p x ≡ true
one_of-all p x [] a m = absurd (ground (arith, m))
one_of-all p x (y ∷ ys) a m = elim (Bool-cases (str_eq x y)) [
  | inl e ↦ rw ((eq_iff x y).0 e) (and-true (p y) (all p ys) a).0
  | inr e ↦ ground (arith, e, a, m, one_of-all p x ys)
]

-- The list stored names the operations asked for, which are of the vocabulary.
pub operations_json-names :
    (asked ops : List String)
    → operations_json asked ≡ some ops
    → (all is_operation asked ≡ true) × ((op : String) → one_of op ops ≡ one_of op asked)
unfolding operations_json
operations_json-names [] ops h = absurd (ground (arith, h))
operations_json-names (x ∷ xs) ops h = elim (Bool-cases (all is_operation (x ∷ xs))) [
  | inr a ↦ absurd (ground (arith, a, h))
  | inl a ↦ elim (Bool-cases (distinct (x ∷ xs))) [
    | inr d ↦ absurd (ground (arith, a, d, h))
    | inl d ↦ (
      a,
      λ op.
          rw
            (some_eq {x = ops} {y = sort str_leb (x ∷ xs)}
              (sym h ∙ rw (a, operations_json) (rw d refl)))
            (one_of-sort op (x ∷ xs)),
    )
  ]
]
