-- ===== src/Ipc/Validator/Unc.antt =====
-- `is_lexical_unc` of crates/pigtree-ipc/src/validator.rs. A read below the tested length never
-- meets the default of `get_or`.
use pig_tree.Base.{
  ℕ, Bool, true, false, not, ◌&&◌, ◌||◌, length, take, drop, get_or, leb, ◌==◌, if◌then◌else◌,
}
use pig_tree.Base.Text.{Text, codes, starts_with, eq_ignore_ascii_case}
use pig_tree.Base.Trim.{trim}

unfoldable pub is_slash : ℕ → Bool
is_slash b = (b == 92) || (b == b'/')

abbrev at : Text → ℕ → ℕ
at bytes i = get_or bytes i 0

is_ascii_alphabetic : ℕ → Bool
is_ascii_alphabetic c = (leb b'A' c && leb c b'Z') || (leb b'a' c && leb c b'z')

is_query_or_dot : ℕ → Bool
is_query_or_dot c = (c == b'?') || (c == b'.')

-- The first step: an extended UNC prefix.
unfoldable pub has_extended_unc : Text → Bool
unfolding is_slash is_query_or_dot
has_extended_unc bytes =
    let first_two_slash =
      (is_slash (at bytes 0) && is_slash (at bytes 1))
      || ((at bytes 0 == 92) && ((at bytes 1 == b'?') && (at bytes 2 == b'?'))) in
    let prefix =
      (first_two_slash && (is_query_or_dot (at bytes 2) && is_slash (at bytes 3)))
      || starts_with bytes (codes "\\??\\\\") in
    leb 8 (length bytes)
    && prefix
    && eq_ignore_ascii_case (take 3 (drop 4 bytes)) (codes "UNC")
    && is_slash (at bytes 7)

-- The second step: two slashes, but for a drive of this computer in an extended path.
unfoldable pub has_network_prefix : Text → Bool
unfolding is_slash is_query_or_dot is_ascii_alphabetic
has_network_prefix bytes =
    if leb 2 (length bytes) && is_slash (at bytes 0) && is_slash (at bytes 1)
    then (if leb 4 (length bytes) && is_query_or_dot (at bytes 2) && is_slash (at bytes 3)
        then not (leb 6 (length bytes) && is_ascii_alphabetic (at bytes 4) && (at bytes 5 == b':'))
        else true)
    else false

unfoldable pub is_lexical_unc : Text → Bool
is_lexical_unc raw =
    let s = trim raw in
    if length s == 0 then false else if has_extended_unc s then true else has_network_prefix s
