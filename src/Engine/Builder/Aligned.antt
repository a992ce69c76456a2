-- ===== src/Engine/Builder/Aligned.antt =====
-- The insertions of crates/pigtree-engine/src/builder.rs and the vectors that run beside the entries.
use pig_tree.Base.{
  ℕ, ◌+◌, sym, ◌∙◌, [], ◌∷◌, ◌++◌, not, ◌&&◌, get_or, set, length, length-append, length-set, ◌==◌,
  arith, inl, inr, Bool-cases,
}
use pig_tree.Base.Dict.{nat_eq}
use pig_tree.Engine.Graph.{CompactEntry}
use pig_tree.Engine.Builder.{as_u32, max_u32, GraphBuilder, switch_mode, link_child, push_entry}
use pig_tree.Engine.Builder.Linked.{append-IsLinkedBelow, first-IsLinkedBelow, later-IsLinkedBelow}
use pig_tree.Engine.Builder.Invariant.{IsAligned}

pub push-IsAligned :
    (id : ℕ) (entry : CompactEntry) (self_alloc : ℕ) (b : GraphBuilder)
    → IsAligned b
    → IsAligned (push_entry id entry self_alloc b)
unfolding push_entry
push-IsAligned id entry self_alloc b h = record {
  first_child = rw (length-append, length-append, h.first_child);
  last_child = rw (length-append, length-append, h.last_child);
  next_sibling = rw (length-append, length-append, h.next_sibling);
  dir_self_alloc = rw (length-append, length-append, h.dir_self_alloc);
  linked =
      append-IsLinkedBelow (length b.entries) (length (b.entries ++ (entry ∷ []))) b.first_child
        b.last_child (omega (arith, length-append b.entries (entry ∷ []))) h.linked;
}

-- A new entry behind those that are there, linked to its parent.
pub link-push-IsAligned :
    (id p : ℕ) (entry : CompactEntry) (self_alloc : ℕ) (b : GraphBuilder)
    → IsAligned b
    → IsAligned (push_entry id entry self_alloc (link_child p (length b.entries) b))
unfolding link_child push_entry
link-push-IsAligned id p entry self_alloc b h =
    let n = length b.entries in
    let m = length (b.entries ++ (entry ∷ [])) in
    let one_more = length-append b.entries (entry ∷ []) in
    let c = as_u32 n in
    elim (Bool-cases (get_or b.first_child p max_u32 == max_u32)) [
      | inl first ↦ rw first (record {
        first_child = rw (length-append, length-append, length-set, h.first_child);
        last_child = rw (length-append, length-append, length-set, h.last_child);
        next_sibling = rw (length-append, length-append, h.next_sibling);
        dir_self_alloc = rw (length-append, length-append, h.dir_self_alloc);
        linked =
            append-IsLinkedBelow m m (set b.first_child p c) (set b.last_child p c) (omega arith) (
              first-IsLinkedBelow n m b.first_child b.last_child p c c (omega arith) (omega arith)
                (h.first_child ∙ sym h.last_child) h.linked);
      })
      | inr later ↦ rw later (record {
        first_child = rw (length-append, length-append, h.first_child);
        last_child = rw (length-append, length-append, length-set, h.last_child);
        next_sibling = rw (length-append, length-append, length-set, h.next_sibling);
        dir_self_alloc = rw (length-append, length-append, h.dir_self_alloc);
        linked = append-IsLinkedBelow m m b.first_child (set b.last_child p c) (omega arith) (
            later-IsLinkedBelow n m b.first_child b.last_child p c (omega arith) (omega arith)
              h.linked);
      })
    ]

pub switch_mode-IsAligned : (id : ℕ) (b : GraphBuilder) → IsAligned b → IsAligned (switch_mode id b)
unfolding switch_mode
switch_mode-IsAligned id b h =
    elim (Bool-cases (b.is_dense && not (id == as_u32 (length b.entries + 1)))) [
      | inl switch ↦ rw switch (record {
        first_child = h.first_child;
        last_child = h.last_child;
        next_sibling = h.next_sibling;
        dir_self_alloc = h.dir_self_alloc;
        linked = h.linked;
      })
      | inr stay ↦ rw stay h
    ]
