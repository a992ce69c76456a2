-- ===== src/Worker/Entries/Record.antt =====
-- A turn of `parse_extd_entries` in crates/pigtree-scan-worker/src/lib.rs on a record of the documented
-- layout.
use pig_tree.Base.{
  ℕ, ◌+◌, ◌-◌, ◌*◌, ◌^◌, ◌≤◌, ◌<◌, List, [], ◌∷◌, ◌++◌, length, length-append, take, drop,
  take_exactly, ◌≡◌, ◌≢◌, refl, ap, ◌∙◌, arith, some, bit_and, ◌==◌, if◌then◌else◌, le→ltb, lt→ltb,
  Bool-cases, inl, inr,
}
use pig_tree.Base.Bytes.{to_le_bytes}
use pig_tree.Worker.Entries.{
  VolumeContext, EntryFacts, extd_min_record, read_le, read_i64_le, checked_add, record_end,
  name_range, read_reparse_tag, read_facts, read_record, file_attribute_reparse_point, return,
  next_record, turn,
}
use pig_tree.Worker.Entries.Layout.{
  DirInfo, IsDirInfo, name_bytes, fixed, facts_of, length-name_bytes, u16_units-name_bytes,
  drop-beyond, read_le-field,
}

positive : (us : List ℕ) → us ≢ [] → 0 < length us
positive [] h = absurd (h refl)
positive (u ∷ us) h = omega arith

turn_by_record :
    (buf : List ℕ) (volume : VolumeContext) (off : ℕ) (facts : List EntryFacts) (fact : EntryFacts)
    (next end : ℕ)
    → off + extd_min_record ≤ length buf
    → off + extd_min_record < 2 ^ 64
    → read_record buf volume off ≡ some (fact, next, end)
    → turn buf volume off facts
      ≡ (if next == 0 then return (some (facts ++ (fact ∷ []))) else next_record fact end)
unfolding turn checked_add
turn_by_record buf volume off facts fact next end fits small known =
    rw
      (
        turn,
        lt→ltb (off + extd_min_record) (2 ^ 64) small,
        le→ltb (length buf) (off + extd_min_record) fits,
        known,
      )
      refl

-- One record, behind `p` and before `tail`.
module _ (p tail : List ℕ) (next : ℕ) (r : DirInfo) (ok_next : next < 256 ^ 4)
    (ok_r : IsDirInfo r) where
  abbrev pub record_bytes : List ℕ
  record_bytes = fixed next r (name_bytes r.name ++ tail)

  abbrev pub whole : List ℕ
  whole = p ++ record_bytes

  length-record_bytes : length record_bytes ≡ 88 + length r.name * 2 + length tail
  length-record_bytes =
      omega (arith, length-append (name_bytes r.name) tail, length-name_bytes r.name)

  at :
      (k o v : ℕ)
      → take k (drop o record_bytes) ≡ to_le_bytes k v
      → o + k ≤ 88
      → v < 256 ^ k
      → read_le k whole (length p + o) ≡ some v
  at k o v e fits small =
      read_le-field k o v p record_bytes e (omega (arith, length-record_bytes)) small

  tag_read :
      read_reparse_tag whole (length p) r.file_attributes
      ≡ some (
          if bit_and r.file_attributes file_attribute_reparse_point == 0
          then 0
          else r.reparse_point_tag)
  unfolding read_reparse_tag
  tag_read = elim (Bool-cases (bit_and r.file_attributes file_attribute_reparse_point == 0)) [
    | inl plain ↦ rw plain refl
    | inr reparse ↦
        let (t1, t2, t3, t4, t5, t6, t7, t8, filled, short, units) = ok_r in
        rw reparse (at 4 68 r.reparse_point_tag refl (omega arith) t7)
  ]

  name_read : take (length r.name * 2) (drop (length p + 88) whole) ≡ name_bytes r.name
  name_read =
      rw (drop-beyond p record_bytes 88)
        (take_exactly (length r.name * 2) (name_bytes r.name) tail (length-name_bytes r.name))

  name_range_read :
      (end : ℕ)
      → length p + 88 + length r.name * 2 ≤ end
      → end < 2 ^ 64
      → name_range (length p) end (length r.name * 2)
        ≡ some (length p + 88, length p + 88 + length r.name * 2)
  unfolding name_range checked_add
  name_range_read end fits small =
      let (t1, t2, t3, t4, t5, t6, t7, t8, filled, short, units) = ok_r in
      let one : 0 < length r.name = positive r.name filled in ground arith

  read_facts-record :
      (end : ℕ)
      → length p + 88 + length r.name * 2 ≤ end
      → end < 2 ^ 64
      → (volume : VolumeContext) → read_facts whole volume (length p) end ≡ some (facts_of volume r)
  unfolding read_facts read_i64_le
  read_facts-record end fits small volume =
      let (t1, t2, t3, t4, t5, t6, t7, t8, filled, short, units) = ok_r in
      let same : length p + 88 + length r.name * 2 - (length p + 88) ≡ length r.name * 2 =
        omega arith in
      rw
        (
          at 4 56 r.file_attributes refl (omega arith) t6,
          tag_read,
          at 4 60 (length r.name * 2) refl (omega arith) (omega arith),
          name_range_read end fits small,
          at 8 8 r.creation_time refl (omega arith) t1,
          at 8 16 r.last_access_time refl (omega arith) t2,
          at 8 24 r.last_write_time refl (omega arith) t3,
          at 8 48 r.allocation_size refl (omega arith) t5,
          at 8 40 r.end_of_file refl (omega arith) t4,
          at 16 72 r.file_id refl (omega arith) t8,
          same,
          name_read,
          u16_units-name_bytes r.name units,
        )
        refl

  read_record-record :
      (end : ℕ)
      → length p + 88 + length r.name * 2 ≤ end
      → end < 2 ^ 64
      → record_end whole (length p) next ≡ some end
      → (volume : VolumeContext)
      → read_record whole volume (length p) ≡ some (facts_of volume r, next, end)
  unfolding read_record
  read_record-record end fits small ends volume =
      let here : read_le 4 whole (length p) ≡ some next =
        ap (read_le 4 whole) (omega arith) ∙ at 4 0 next refl (omega arith) ok_next in
      rw (here, ends, read_facts-record end fits small volume) refl

  pub turn-record :
      (end : ℕ)
      → length p + 88 + length r.name * 2 ≤ end
      → end < 2 ^ 64
      → end ≤ length whole
      → record_end whole (length p) next ≡ some end
      → (volume : VolumeContext) (facts : List EntryFacts)
      → turn whole volume (length p) facts ≡ (
          if next == 0
          then return (some (facts ++ (facts_of volume r ∷ [])))
          else next_record (facts_of volume r) end)
  turn-record end fits small inside ends volume facts =
      let known = read_record-record end fits small ends volume in
      turn_by_record whole volume (length p) facts (facts_of volume r) next end (omega arith)
        (omega arith) known
