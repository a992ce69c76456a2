-- ===== src/Worker/Entries/Bounds.antt =====
-- The loop of `parse_extd_entries` in crates/pigtree-scan-worker/src/lib.rs ends, on every buffer.
use pig_tree.Base.{
  ℕ, zero, suc, ◌+◌, ◌≤◌, ◌<◌, ◌≡◌, ◌≢◌, ◌⊎◌, refl, arith, Option, some, List, [], ◌∷◌, ◌++◌, inl,
  inr, Option-cases, length,
}
use pig_tree.Base.Chain.{bind-some}
use pig_tree.Worker.Entries.{
  read_facts, VolumeContext, EntryFacts, record_end, read_le, read_record, Turn, return,
  next_record, turn, extd_loop, parse_extd_entries,
}

record_end_bounds :
    (buf : List ℕ) (off next end : ℕ)
    → record_end buf off next ≡ some end
    → next ≢ 0
    → (off + 88 ≤ end) × (end ≤ length buf) × (end ≡ off + next)
unfolding record_end
record_end_bounds buf off next end e h = ground arith

read_record-record_end :
    (buf : List ℕ) (volume : VolumeContext) (off next end : ℕ) (fact : EntryFacts)
    → read_record buf volume off ≡ some (fact, next, end)
    → record_end buf off next ≡ some end
unfolding read_record
read_record-record_end buf volume off next end fact e =
    let (n, at_n, e1) = bind-some (read_le 4 buf off) _ _ e in
    let (m, at_m, e2) = bind-some (record_end buf off n) _ _ e1 in
    let (f, at_f, e3) = bind-some (read_facts buf volume off m) _ _ e2 in ground arith

turn_advances :
    (buf : List ℕ) (volume : VolumeContext) (off end : ℕ) (facts : List EntryFacts)
    (fact : EntryFacts)
    → turn buf volume off facts ≡ next_record fact end
    → (off + 88 ≤ end) × (end ≤ length buf)
unfolding turn
turn_advances buf volume off end facts fact e = elim (Option-cases (read_record buf volume off)) [
  | inl bad ↦ ground arith
  | inr ((f, next, m), good) ↦
      let fits = read_record-record_end buf volume off next m f good in
      ground (arith, record_end_bounds buf off next m fits)
]

Turn-cases :
    (t : Turn)
    → ((r : Option (List EntryFacts)) × (t ≡ return r))
      ⊎ ((f : EntryFacts) × (n : ℕ) × (t ≡ next_record f n))
Turn-cases (return r) = inl (r, refl)
Turn-cases (next_record f n) = inr (f, n, refl)

extd_loop_returns :
    (fuel : ℕ) (buf : List ℕ) (volume : VolumeContext) (off : ℕ) (facts : List EntryFacts)
    → length buf < fuel + off
    → off ≤ length buf
    → (r : Option (List EntryFacts)) × (extd_loop fuel buf volume off facts ≡ some r)
unfolding extd_loop
extd_loop_returns zero buf volume off facts h le = absurd (omega arith)
extd_loop_returns (suc fuel) buf volume off facts h le =
    elim (Turn-cases (turn buf volume off facts)) [
      | inl (r, e) ↦ (r, ground arith)
      | inr (f, n, e) ↦
          let (up, fits) = turn_advances buf volume off n facts f e in
          let (r, done) =
            extd_loop_returns fuel buf volume n (facts ++ (f ∷ [])) (omega arith) fits in
          (r, ground arith)
    ]

-- The parser returns on every buffer, whatever offsets stand in it: the loop makes fewer turns than
-- the buffer has bytes, and one more.
pub parse_extd_entries_returns :
    (buf : List ℕ) (volume : VolumeContext)
    → (r : Option (List EntryFacts)) × (parse_extd_entries buf volume ≡ some r)
unfolding parse_extd_entries
parse_extd_entries_returns buf volume =
    extd_loop_returns (suc (length buf)) buf volume 0 [] (omega arith) (omega arith)
