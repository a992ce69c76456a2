-- ===== src/Worker/Entries/RoundTrip.antt =====
-- `parse_extd_entries` of crates/pigtree-scan-worker/src/lib.rs reads every buffer of the documented
-- layout.
use pig_tree.Base.{
  ℕ, zero, suc, ◌+◌, ◌*◌, ◌%◌, ◌^◌, ◌≤◌, ◌<◌, List, [], ◌∷◌, ◌++◌, length, length-append,
  append_assoc, ◌≡◌, refl, ap, ◌∙◌, subst, arith, some, ◌==◌, if◌then◌else◌, map, Bool, false,
}
use pig_tree.Worker.Entries.{
  VolumeContext, EntryFacts, checked_add, record_end, return, next_record, turn, extd_loop,
  parse_extd_entries,
}
use pig_tree.Worker.Entries.Layout.{
  DirInfo, IsDirInfo, name_bytes, fixed, record_size, IsBuffer, IsLinked, encode, facts_of,
  length-name_bytes,
}
use pig_tree.Worker.Entries.Record.{turn-record}

record_end-last : (buf : List ℕ) (off : ℕ) → record_end buf off 0 ≡ some (length buf)
unfolding record_end
record_end-last buf off = refl

record_end-more :
    (buf : List ℕ) (off : ℕ) (r : DirInfo)
    → record_size r % 8 ≡ 0
    → off + record_size r ≤ length buf
    → length buf < 2 ^ 64
    → record_end buf off (record_size r) ≡ some (off + record_size r)
unfolding record_end checked_add
record_end-more buf off r aligned fits small = ground arith

length-encode : (rs : List DirInfo) → length rs ≤ length (encode rs)
length-encode [] = omega arith
length-encode (r ∷ []) = omega arith
length-encode (r ∷ q ∷ rs) = omega (
  arith,
  length-encode (q ∷ rs),
  length-append (name_bytes r.name) (r.slack ++ encode (q ∷ rs)),
  length-append r.slack (encode (q ∷ rs)),
)

-- The buffer up to the next record.
front : DirInfo → List ℕ
front r = fixed (record_size r) r (name_bytes r.name ++ r.slack)

length-front : (r : DirInfo) → length (front r) ≡ record_size r
unfolding front
length-front r =
    omega (arith, length-append (name_bytes r.name) (r.slack), length-name_bytes r.name)

split_front :
    (p : List ℕ) (r q : DirInfo) (rs : List DirInfo)
    → p ++ encode (r ∷ q ∷ rs) ≡ (p ++ front r) ++ encode (q ∷ rs)
unfolding front
split_front p r q rs =
    rw
      (
        append_assoc p (front r) (encode (q ∷ rs)),
        append_assoc (name_bytes r.name) (r.slack) (encode (q ∷ rs)),
      )
      refl

append_one :
    (facts : List EntryFacts) (fact : EntryFacts) (more : List EntryFacts)
    → (facts ++ (fact ∷ [])) ++ more ≡ facts ++ (fact ∷ more)
append_one facts fact more = append_assoc facts (fact ∷ []) more

turn-last :
    (p : List ℕ) (r : DirInfo) (volume : VolumeContext) (facts : List EntryFacts)
    → IsDirInfo r
    → length (p ++ encode (r ∷ [])) < 2 ^ 64
    → turn (p ++ encode (r ∷ [])) volume (length p) facts
      ≡ return (some (facts ++ (facts_of volume r ∷ [])))
turn-last p r volume facts h small =
    let body = fixed 0 r (name_bytes r.name ++ r.slack) in
    let size : length (p ++ body) ≡ length p + 88 + length r.name * 2 + length r.slack = omega (
      arith,
      length-append p body,
      length-append (name_bytes r.name) r.slack,
      length-name_bytes r.name,
    ) in
    turn-record p r.slack 0 r (omega arith) h (length (p ++ body)) (omega arith) (omega arith)
      (omega arith) (record_end-last (p ++ body) (length p)) volume facts

turn-more :
    (p : List ℕ) (r q : DirInfo) (rs : List DirInfo) (volume : VolumeContext)
    (facts : List EntryFacts)
    → IsDirInfo r
    → IsLinked r
    → length (p ++ encode (r ∷ q ∷ rs)) < 2 ^ 64
    → turn (p ++ encode (r ∷ q ∷ rs)) volume (length p) facts
      ≡ next_record (facts_of volume r) (length p + record_size r)
turn-more p r q rs volume facts h (aligned, fits) small =
    let tail = r.slack ++ encode (q ∷ rs) in
    let size : length (p ++ encode (r ∷ q ∷ rs))
        ≡ length p + (record_size r + length (encode (q ∷ rs))) =
      ap length (split_front p r q rs)
      ∙ omega (
        arith,
        length-append (p ++ front r) (encode (q ∷ rs)),
        length-append p (front r),
        length-front r,
      ) in
    let linked : (record_size r == 0) ≡ false = ground arith in
    turn-record p tail (record_size r) r (omega arith) h (length p + record_size r) (omega arith)
      (omega arith) (omega arith)
      (record_end-more (p ++ encode (r ∷ q ∷ rs)) (length p) r aligned (omega arith) small) volume
      facts
    ∙ ap
        (λ (b : Bool).
          if b
          then return (some (facts ++ (facts_of volume r ∷ [])))
          else next_record (facts_of volume r) (length p + record_size r))
        linked

loop-encode :
    (rs : List DirInfo) (r : DirInfo) (p : List ℕ) (fuel : ℕ) (volume : VolumeContext)
    (facts : List EntryFacts)
    → IsBuffer (r ∷ rs)
    → length (p ++ encode (r ∷ rs)) < 2 ^ 64
    → length rs < fuel
    → extd_loop fuel (p ++ encode (r ∷ rs)) volume (length p) facts
      ≡ some (some (facts ++ map (facts_of volume) (r ∷ rs)))
unfolding extd_loop
loop-encode rs r p zero volume facts h small enough = absurd (omega arith)
loop-encode [] r p (suc fuel) volume facts hr small enough =
    rw (extd_loop, turn-last p r volume facts hr small) refl
loop-encode (q ∷ rs) r p (suc fuel) volume facts (hr, linked, hs) small enough =
    rw (extd_loop, turn-more p r q rs volume facts hr linked small)
      (rw
        (
          split_front p r q rs,
          ← append_one facts (facts_of volume r) (map (facts_of volume) (q ∷ rs)),
        )
        (subst
          (λ (n : ℕ).
            extd_loop fuel ((p ++ front r) ++ encode (q ∷ rs)) volume n
              (facts ++ (facts_of volume r ∷ []))
            ≡ some (some ((facts ++ (facts_of volume r ∷ [])) ++ map (facts_of volume) (q ∷ rs))))
          (length-append p (front r) ∙ ap (λ (n : ℕ). length p + n) (length-front r))
          (loop-encode rs q (p ++ front r) fuel volume (facts ++ (facts_of volume r ∷ [])) hs
            (subst (λ (b : List ℕ). length b < 2 ^ 64) (split_front p r q rs) small)
            (omega arith))))

-- A buffer of the documented layout, with any number of records and any bytes between them and behind
-- the last one, is read as just the facts of its records, in their order. The fields fit their types, no
-- name is empty, and the buffer is shorter than 2^64 bytes.
pub parse_extd_entries-encode :
    (rs : List DirInfo) (volume : VolumeContext)
    → IsBuffer rs
    → length (encode rs) < 2 ^ 64
    → parse_extd_entries (encode rs) volume ≡ some (some (map (facts_of volume) rs))
unfolding parse_extd_entries extd_loop turn checked_add
parse_extd_entries-encode [] volume h small = refl
parse_extd_entries-encode (r ∷ rs) volume h small =
    loop-encode rs r [] (suc (length (encode (r ∷ rs)))) volume [] h small
      (omega (arith, length-encode (r ∷ rs)))
