-- ===== src/Protocol/Observation/Parts.antt =====
-- The parts that several records share: what each writer appends, and that its reader takes it back.
use pig_tree.Base.{ℕ, ◌^◌, ◌<◌, ◌≡◌, refl, ap, ◌∙◌, List, [], ◌∷◌, ◌++◌, append_assoc, arith}
use pig_tree.Base.{Option, none, some, Result, ok, length, le→ltb}
use pig_tree.Base.Bytes.{to_le_bytes, from_le_bytes-to_le_bytes}
use pig_tree.Protocol.Utf8.{IsUtf8}
use pig_tree.Protocol.Io.{End, read_exact_from-append}
use pig_tree.Protocol.Observation.{
  ObjectIdentity, ValueKnowledge, known, not_observed, unavailable, ObservationDecodeError,
}
use pig_tree.Protocol.Observation.Write.{
  write_u16_str, write_object_identity, write_link_knowledge, write_allocated,
  write_stream_allocated,
}
use pig_tree.Protocol.Observation.Read.{
  read_u16_str, read_object_identity, read_identity_fields, read_link_knowledge, link_knowledge,
  allocated, ◌>>=◌, Read, lift, read_bytes,
}

abbrev pub IsU32 : ℕ → Type 0
IsU32 n = n < 256 ^ 4

abbrev pub IsU64 : ℕ → Type 0
IsU64 n = n < 256 ^ 8

-- A string that `write_u16_str` can write.
pub record IsShort (s : List ℕ) : Type 0 where
  pub fits : length s < 256 ^ 2
  pub utf8 : IsUtf8 s

abbrev pub str_bytes : List ℕ → List ℕ
str_bytes s = to_le_bytes 2 (length s) ++ s

abbrev pub IsIdentity : Option ObjectIdentity → Type 0
IsIdentity none = Unit
IsIdentity (some id) = (length id.volume_guid ≡ 16) × (id.file_id < 256 ^ 16)

abbrev pub identity_bytes : Option ObjectIdentity → List ℕ
identity_bytes none = 0 ∷ []
identity_bytes (some id) = 1 ∷ (id.volume_guid ++ to_le_bytes 16 id.file_id)

abbrev pub IsLinks : ValueKnowledge ℕ → Type 0
IsLinks (known count) = count < 256 ^ 4
IsLinks _ = Unit

abbrev pub link_tag : ValueKnowledge ℕ → ℕ
link_tag not_observed = 0
link_tag (known count) = 1
link_tag unavailable = 2
link_tag ValueKnowledge.not_applicable = 3

abbrev pub link_value : ValueKnowledge ℕ → ℕ
link_value (known count) = count
link_value _ = 0

abbrev pub link_bytes : ValueKnowledge ℕ → List ℕ
link_bytes links = link_tag links ∷ to_le_bytes 4 (link_value links)

abbrev pub IsSize : Option ℕ → Type 0
IsSize none = Unit
IsSize (some n) = n < 256 ^ 8

abbrev pub size_flag : Option ℕ → ℕ
size_flag none = 0
size_flag (some n) = 1

abbrev pub size_value : Option ℕ → ℕ
size_value none = 0
size_value (some n) = n

abbrev pub size_bytes : Option ℕ → List ℕ
size_bytes size = size_flag size ∷ to_le_bytes 8 (size_value size)

abbrev pub stream_size_bytes : Option ℕ → List ℕ
stream_size_bytes none = 0 ∷ []
stream_size_bytes (some n) = 1 ∷ to_le_bytes 8 n

pub write_u16_str-eq :
    (s out : List ℕ) → IsShort s → write_u16_str s out ≡ (ok tt, out ++ str_bytes s)
unfolding write_u16_str
write_u16_str-eq s out h = rw (le→ltb 0xffff (length s) (omega arith), append_assoc)

pub write_object_identity-eq :
    (id : Option ObjectIdentity) (out : List ℕ)
    → write_object_identity id out ≡ (ok tt, out ++ identity_bytes id)
unfolding write_object_identity
write_object_identity-eq none out = refl
write_object_identity-eq (some id) out = simp append_assoc

pub write_link_knowledge-eq :
    (links : ValueKnowledge ℕ) (out : List ℕ)
    → write_link_knowledge links out ≡ (ok tt, out ++ link_bytes links)
unfolding write_link_knowledge
write_link_knowledge-eq not_observed out = simp append_assoc
write_link_knowledge-eq (known count) out = simp append_assoc
write_link_knowledge-eq unavailable out = simp append_assoc
write_link_knowledge-eq ValueKnowledge.not_applicable out = simp append_assoc

pub write_allocated-eq :
    (size : Option ℕ) (out : List ℕ) → write_allocated size out ≡ (ok tt, out ++ size_bytes size)
unfolding write_allocated
write_allocated-eq none out = simp append_assoc
write_allocated-eq (some n) out = simp append_assoc

pub write_stream_allocated-eq :
    (size : Option ℕ) (out : List ℕ)
    → write_stream_allocated size out ≡ (ok tt, out ++ stream_size_bytes size)
unfolding write_stream_allocated
write_stream_allocated-eq none out = refl
write_stream_allocated-eq (some n) out = simp append_assoc

-- `m` reads `bytes` as `a` off the front of every stream.
abbrev pub Reads : {A : Type 0} → Read A → List ℕ → A → Type 0
Reads m bytes a =
    (rest : List ℕ) (end : End)
    → m (record { bytes = bytes ++ rest; end = end }) ≡ ok (a, record { bytes = rest; end = end })

pub Reads-bind :
    {A B : Type 0} (m : Read A) (f : A → Read B) (front back : List ℕ) (a : A) (b : B)
    → Reads m front a
    → Reads (f a) back b
    → Reads (m >>= f) (front ++ back) b
Reads-bind m f front back a b hm hf rest end =
    ap (λ (t : List ℕ). (m >>= f) (record { bytes = t; end = end })) (append_assoc front back rest)
    ∙ rw (hm (back ++ rest) end, ◌>>=◌) (hf rest end)

-- A step that reads nothing.
pub Reads-pure_bind :
    {A B : Type 0} (m : Read A) (f : A → Read B) (bytes : List ℕ) (a : A) (b : B)
    → Reads m [] a
    → Reads (f a) bytes b
    → Reads (m >>= f) bytes b
Reads-pure_bind m f bytes a b = Reads-bind m f [] bytes a b

pub Reads-read_bytes :
    (n : ℕ) (bytes : List ℕ) → length bytes ≡ n → Reads (read_bytes n) bytes bytes
Reads-read_bytes n bytes e rest end = rw (← e, read_exact_from-append end bytes rest)

pub Reads-lift :
    {A : Type 0} (r : Result ObservationDecodeError A) (a : A) → r ≡ ok a → Reads (lift r) [] a
Reads-lift r a e rest end = rw e

pub read_u16_str-str_bytes : (s : List ℕ) → IsShort s → Reads read_u16_str (str_bytes s) s
unfolding read_u16_str
read_u16_str-str_bytes s h rest end = rw (
  from_le_bytes-to_le_bytes 2 (length s) h.fits,
  ◌>>=◌,
  read_exact_from-append end s rest,
  h.utf8,
)

read_identity_fields-eq :
    (id : ObjectIdentity)
    → length id.volume_guid ≡ 16
    → id.file_id < 256 ^ 16
    → Reads read_identity_fields (id.volume_guid ++ to_le_bytes 16 id.file_id) (some id)
unfolding read_identity_fields
read_identity_fields-eq id guid_16 fits =
    Reads-bind (read_bytes 16) _ id.volume_guid (to_le_bytes 16 id.file_id) id.volume_guid (some id)
      (Reads-read_bytes 16 id.volume_guid guid_16)
      (λ rest end. rw (from_le_bytes-to_le_bytes 16 id.file_id fits))

pub read_object_identity-identity_bytes :
    (id : Option ObjectIdentity) → IsIdentity id → Reads read_object_identity (identity_bytes id) id
unfolding read_object_identity
read_object_identity-identity_bytes none h rest end = refl
read_object_identity-identity_bytes (some id) (guid_16, fits) rest end =
    read_identity_fields-eq id guid_16 fits rest end

link_knowledge-eq :
    (links : ValueKnowledge ℕ) → link_knowledge (link_tag links) (link_value links) ≡ ok links
unfolding link_knowledge
link_knowledge-eq not_observed = refl
link_knowledge-eq (known count) = refl
link_knowledge-eq unavailable = refl
link_knowledge-eq ValueKnowledge.not_applicable = refl

link_value-lt : (links : ValueKnowledge ℕ) → IsLinks links → link_value links < 256 ^ 4
link_value-lt not_observed h = omega arith
link_value-lt (known count) h = h
link_value-lt unavailable h = omega arith
link_value-lt ValueKnowledge.not_applicable h = omega arith

pub read_link_knowledge-link_bytes :
    (links : ValueKnowledge ℕ) → IsLinks links → Reads read_link_knowledge (link_bytes links) links
unfolding read_link_knowledge
read_link_knowledge-link_bytes links h rest end = rw (
  from_le_bytes-to_le_bytes 4 (link_value links) (link_value-lt links h),
  link_knowledge-eq links,
)

pub size_value-lt : (size : Option ℕ) → IsSize size → size_value size < 256 ^ 8
size_value-lt none h = omega arith
size_value-lt (some n) h = h

pub allocated-eq : (size : Option ℕ) → allocated (size_flag size) (size_value size) ≡ ok size
unfolding allocated
allocated-eq none = refl
allocated-eq (some n) = refl
