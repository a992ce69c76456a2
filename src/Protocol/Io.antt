-- ===== src/Protocol/Io.antt =====
-- What the decoders see of `std::io::Read`: bytes, and then the end of the stream or an I/O error.
-- An error is its kind. (`read_exact` hides the kind `Interrupted` from its callers, so that a
-- stream here never ends with it.)
use pig_tree.Base.{ℕ, zero, suc, ◌≡◌, refl, Option, none, some, List, [], ◌∷◌, ◌++◌, length}
use pig_tree.Base.{Result, ok, err}

pub data ErrorKind : Type 0 where
  unexpected_eof invalid_input broken_pipe : ErrorKind
  other : ℕ → ErrorKind

pub data End : Type 0 where
  eof : End
  fails : ErrorKind → End

pub record Source : Type 0 where
  pub bytes : List ℕ
  pub end : End

-- `read` into a buffer of one byte: nothing is read at the end of the stream.
abbrev pub read_byte_from : End → List ℕ → Result ErrorKind (Option ℕ × Source)
read_byte_from eof [] = ok (none, record { bytes = []; end = eof })
read_byte_from (fails e) [] = err e
read_byte_from end (b ∷ bs) = ok (some b, record { bytes = bs; end = end })

abbrev pub read_byte : Source → Result ErrorKind (Option ℕ × Source)
read_byte s = read_byte_from s.end s.bytes

abbrev cut_short : End → ErrorKind
cut_short eof = unexpected_eof
cut_short (fails e) = e

abbrev prepend : ℕ → Result ErrorKind (List ℕ × Source) → Result ErrorKind (List ℕ × Source)
prepend b (ok (bs, s)) = ok (b ∷ bs, s)
prepend b (err e) = err e

-- `read_exact` into a buffer of `n` bytes.
abbrev pub read_exact_from : End → ℕ → List ℕ → Result ErrorKind (List ℕ × Source)
read_exact_from end zero bs = ok ([], record { bytes = bs; end = end })
read_exact_from end (suc n) [] = err (cut_short end)
read_exact_from end (suc n) (b ∷ bs) = prepend b (read_exact_from end n bs)

abbrev pub read_exact : ℕ → Source → Result ErrorKind (List ℕ × Source)
read_exact n s = read_exact_from s.end n s.bytes

pub read_exact_from-append :
    (end : End) (bs rest : List ℕ)
    → read_exact_from end (length bs) (bs ++ rest) ≡ ok (bs, record { bytes = rest; end = end })
read_exact_from-append end [] rest = refl
read_exact_from-append end (b ∷ bs) rest = rw (read_exact_from-append end bs rest)
