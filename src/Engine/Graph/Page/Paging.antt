-- ===== src/Engine/Graph/Page/Paging.antt =====
-- Pages of children put together.
use pig_tree.Base.{
  ℕ, zero, suc, ◌+◌, ◌-◌, ◌%◌, ◌^◌, ◌≤◌, ◌<◌, ◌≡◌, refl, sym, ap, ◌∙◌, Option, none, some, List, [],
  ◌∷◌, ◌++◌, length, min, take, drop, leb, arith, inl, inr, Bool-cases, Result, ok, err,
  length-drop,
}
use native.Mathlib.Nat.{suc-add}
use pig_tree.Protocol.Protobuf.{DirectoryEntryNode}
use pig_tree.Engine.Graph.{CompactEntry, storage_get, GraphQueryError, DirectoryGraph}
use pig_tree.Engine.Graph.Page.{
  child_ids, node_of, then_cons, nodes_of, add_node, answer, range, page, page_ids,
  get_children_page,
}

module _ {ℓ} {A : Type ℓ} where
  abbrev no_elements : List A
  no_elements = []

  take_all : (n : ℕ) (xs : List A) → length xs ≤ n → take n xs ≡ xs
  take_all zero [] h = refl
  take_all zero (x ∷ xs) h = absurd (omega arith)
  take_all (suc n) [] h = refl
  take_all (suc n) (x ∷ xs) h = ap (λ (t : List A). x ∷ t) (take_all n xs (omega arith))

  take_nothing : (n : ℕ) → take n (no_elements) ≡ no_elements
  take_nothing zero = refl
  take_nothing (suc n) = refl

  take-min : (n : ℕ) (xs : List A) → take (min n (length xs)) xs ≡ take n xs
  take-min zero xs = ap (λ (k : ℕ). take k xs) {x = min 0 (length xs)} {y = 0} (omega arith)
  take-min (suc n) [] = take_nothing (min (suc n) 0)
  take-min (suc n) (x ∷ xs) =
      ap (λ (k : ℕ). take k (x ∷ xs)) {x = min (suc n) (suc (length xs))}
        {y = suc (min n (length xs))} (omega arith)
      ∙ ap (λ (t : List A). x ∷ t) (take-min n xs)

  drop_all : (n : ℕ) (xs : List A) → length xs ≤ n → drop n xs ≡ []
  drop_all zero [] h = refl
  drop_all zero (x ∷ xs) h = absurd (omega arith)
  drop_all (suc n) [] h = refl
  drop_all (suc n) (x ∷ xs) h = drop_all n xs (omega arith)

  take_add : (m n : ℕ) (xs : List A) → take (m + n) xs ≡ take m xs ++ take n (drop m xs)
  take_add zero n xs = ap (λ (k : ℕ). take k xs) {x = 0 + n} {y = n} (omega arith)
  take_add (suc m) n [] = take_nothing (suc m + n) ∙ sym (take_nothing n)
  take_add (suc m) n (x ∷ xs) = rw suc-add (ap (λ (t : List A). x ∷ t) (take_add m n xs))

  drop_add : (m n : ℕ) (xs : List A) → drop (m + n) xs ≡ drop n (drop m xs)
  drop_add zero n xs = ap (λ (k : ℕ). drop k xs) {x = 0 + n} {y = n} (omega arith)
  drop_add (suc m) n [] =
      drop_all (suc m + n) no_elements (omega arith) ∙ sym (drop_all n no_elements (omega arith))
  drop_add (suc m) n (x ∷ xs) = rw suc-add (drop_add m n xs)

range-eq :
    (xs : List ℕ) (o e : ℕ) → o ≤ e → e ≤ length xs → range xs o e ≡ some (take (e - o) (drop o xs))
range-eq xs o e h h' = ground arith

-- A page within the bounds of a `usize` is answered, with these ids.
pub page_ids-eq :
    (ids : List ℕ) (o l : ℕ) → o + l < 2 ^ 64 → page_ids ids o l ≡ some (take l (drop o ids))
unfolding page_ids
page_ids-eq ids o l fits = elim (Bool-cases (leb (length ids) o)) [
  | inl beyond ↦
      rw beyond (ap some (sym (ap (take l) (drop_all o ids (ground arith)) ∙ take_nothing l)))
  | inr within ↦
      let inside : o < length ids = ground arith in
      let end = min ((o + l) % 2 ^ 64) (length ids) in
      rw within (
        range-eq ids o end (omega arith) (omega arith)
        ∙ ap some (
            ap (λ (k : ℕ). take k (drop o ids)) {x = end - o} {y = min l (length (drop o ids))}
              (omega (arith, length-drop o ids))
            ∙ take-min l (drop o ids)))
]

take-drop_add :
    (ids : List ℕ) (o m n : ℕ)
    → take (m + n) (drop o ids) ≡ take m (drop o ids) ++ take n (drop (o + m) ids)
take-drop_add ids o m n = rw (drop_add o m ids) (take_add m n (drop o ids))

abbrev concat :
    Option (List DirectoryEntryNode)
    → Option (List DirectoryEntryNode)
    → Option (List DirectoryEntryNode)
concat none ys = none
concat (some xs) none = none
concat (some xs) (some ys) = some (xs ++ ys)

then_cons-concat :
    (n : Option DirectoryEntryNode) (xs ys : Option (List DirectoryEntryNode))
    → then_cons n (concat xs ys) ≡ concat (then_cons n xs) ys
then_cons-concat none xs ys = refl
then_cons-concat (some n) none ys = refl
then_cons-concat (some n) (some xs) none = refl
then_cons-concat (some n) (some xs) (some ys) = refl

nil-concat : (ys : Option (List DirectoryEntryNode)) → ys ≡ concat (some []) ys
nil-concat none = refl
nil-concat (some ys) = refl

add_node-concat :
    (g : DirectoryGraph) (o : Option CompactEntry) (xs ys : Option (List DirectoryEntryNode))
    → add_node g o (concat xs ys) ≡ concat (add_node g o xs) ys
add_node-concat g none xs ys = refl
add_node-concat g (some e) xs ys = then_cons-concat (node_of g e) xs ys

nodes_of-append :
    (g : DirectoryGraph) (xs ys : List ℕ)
    → nodes_of g (xs ++ ys) ≡ concat (nodes_of g xs) (nodes_of g ys)
unfolding nodes_of
nodes_of-append g [] ys = nil-concat (nodes_of g ys)
nodes_of-append g (x ∷ xs) ys =
    rw (nodes_of-append g xs ys)
      (add_node-concat g (storage_get g.storage x) (nodes_of g xs) (nodes_of g ys))

abbrev PageResult : Type 0
PageResult = Option (Result GraphQueryError (ℕ × List DirectoryEntryNode))

answer-concat :
    (k t u : ℕ) (a b : Option (List DirectoryEntryNode)) (xs ys : List DirectoryEntryNode)
    → answer k a ≡ some (ok (t, xs))
    → answer k b ≡ some (ok (u, ys))
    → (answer k (concat a b) ≡ some (ok (t, xs ++ ys))) × (t ≡ u)
answer-concat k t u none b xs ys first second = absurd cc
answer-concat k t u (some a) none xs ys first second = absurd cc
answer-concat k t u (some a) (some b) xs ys first second = (cc, cc)

page-add :
    (g : DirectoryGraph) (r : Option (Result GraphQueryError (List ℕ))) (o m n t u : ℕ)
    (xs ys : List DirectoryEntryNode)
    → o + (m + n) < 2 ^ 64
    → page g o m r ≡ some (ok (t, xs))
    → page g (o + m) n r ≡ some (ok (u, ys))
    → (page g o (m + n) r ≡ some (ok (t, xs ++ ys))) × (t ≡ u)
page-add g none o m n t u xs ys fits first second = absurd cc
page-add g (some (err e)) o m n t u xs ys fits first second = absurd cc
page-add g (some (ok ids)) o m n t u xs ys fits first second =
    let left = page_ids-eq ids o m (omega arith) in
    let right = page_ids-eq ids (o + m) n (omega arith) in
    rw
      (
        page_ids-eq ids o (m + n) fits,
        take-drop_add ids o m n,
        nodes_of-append g (take m (drop o ids)) (take n (drop (o + m) ids)),
      )
      (answer-concat (length ids) t u (nodes_of g (take m (drop o ids)))
        (nodes_of g (take n (drop (o + m) ids))) xs ys (rw left at first) (rw right at second))

-- Two pages of the children of an entry that follow each other are one page: the first has
-- `m` ids from `offset` on, the second `n` ids behind them, and the answers have the same total.
-- The sum of the offset and the two limits fits a 64-bit `usize`.
pub pages-add :
    (g : DirectoryGraph) (parent_id offset m n t u : ℕ) (xs ys : List DirectoryEntryNode)
    → offset + (m + n) < 2 ^ 64
    → get_children_page g parent_id offset m ≡ some (ok (t, xs))
    → get_children_page g parent_id (offset + m) n ≡ some (ok (u, ys))
    → (get_children_page g parent_id offset (m + n) ≡ some (ok (t, xs ++ ys))) × (t ≡ u)
unfolding get_children_page
pages-add g parent_id offset m n t u xs ys fits first second =
    page-add g (child_ids g parent_id) offset m n t u xs ys fits first second
