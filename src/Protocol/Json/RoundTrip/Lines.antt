-- ===== src/Protocol/Json/RoundTrip/Lines.antt =====
-- An event of crates/pigtree-protocol/src/json.rs is one line: no byte of it is a control character.
use pig_tree.Base.{
  ℕ, zero, suc, ◌+◌, ◌/◌, ◌%◌, ◌≤◌, true, false, Option, [], ◌∷◌, ◌++◌, arith, All, All-append,
  append_assoc,
}
use pig_tree.Base.Text.{Text, codes, digits, decimal, hex_digit, hex2, bool_text}
use pig_tree.Protocol.Protobuf.{DirectoryEntryNode}
use pig_tree.Protocol.Messages.{ScanProgress, ScanResponse}
use pig_tree.Protocol.Json.{escape_char, escape_chars, escape_json_string}
use pig_tree.Protocol.Json.Entry.{format_directory_entry_ndjson_event}
use pig_tree.Protocol.Json.Scan.{
  format_scan_progress_ndjson_event, format_scan_terminal_ndjson_event,
  format_scan_cancelled_ndjson_event,
}
use pig_tree.Protocol.Json.Value.{
  Value, Values, Fields, str, num, bool, null, arr, obj, no_items, item, no_fields, field, render,
  render_items, render_fields,
}
use pig_tree.Protocol.Json.RoundTrip.Entries.{format_directory_entry_ndjson_event-render}
use pig_tree.Protocol.Json.RoundTrip.Scans.{
  terminal_event_render, progress_render, cancellation_render,
}

abbrev pub IsPrintable : ℕ → Type 0
IsPrintable c = 32 ≤ c

digits-IsPrintable :
    (fuel n : ℕ) (out : Text) → All IsPrintable out → All IsPrintable (digits fuel n out)
unfolding digits
digits-IsPrintable zero n out h = h
digits-IsPrintable (suc fuel) n out h =
    ground (arith, digits-IsPrintable fuel (n / 10) ((b'0' + n % 10) ∷ out))

hex_digit-IsPrintable : (d : ℕ) → IsPrintable (hex_digit d)
unfolding hex_digit
hex_digit-IsPrintable d = ground arith

escape_char-IsPrintable : (c : ℕ) → All IsPrintable (escape_char c)
unfolding escape_char hex2
escape_char-IsPrintable c =
    ground (arith, hex_digit-IsPrintable (c / 16), hex_digit-IsPrintable (c % 16))

escape_chars-IsPrintable : (s : Text) → All IsPrintable (escape_chars s)
unfolding escape_chars
escape_chars-IsPrintable [] = tt
escape_chars-IsPrintable (c ∷ s) =
    All-append IsPrintable (escape_char c) (escape_chars s) (escape_char-IsPrintable c)
      (escape_chars-IsPrintable s)

behind_string :
    (s rest : Text) → All IsPrintable rest → All IsPrintable (escape_json_string s ++ rest)
unfolding escape_json_string
behind_string s rest h = rw (append_assoc (escape_chars s) (codes "\"") rest) (
  omega arith,
  All-append IsPrintable (escape_chars s) (b'"' ∷ rest) (escape_chars-IsPrintable s)
      (omega arith, h),
)

mutual
  unfolding render bool_text decimal

  render-IsPrintable :
      (v : Value) (rest : Text) → All IsPrintable rest → All IsPrintable (render v rest)
  render-IsPrintable (str s) rest h = behind_string s rest h
  render-IsPrintable (num n) rest h =
      All-append IsPrintable (decimal n) rest (digits-IsPrintable (suc n) n [] tt) h
  render-IsPrintable (bool true) rest h = ground arith
  render-IsPrintable (bool false) rest h = ground arith
  render-IsPrintable null rest h = ground arith
  render-IsPrintable (arr no_items) rest h = ground arith
  render-IsPrintable (arr (item v vs)) rest h = (
    omega arith,
    render-IsPrintable v (render_items vs rest) (render_items-IsPrintable vs rest h),
  )
  render-IsPrintable (obj no_fields) rest h = ground arith
  render-IsPrintable (obj (field k v fs)) rest h = (
    omega arith,
    behind_string k _ (
      omega arith,
      render-IsPrintable v (render_fields fs rest) (render_fields-IsPrintable fs rest h),
    ),
  )

  render_items-IsPrintable :
      (vs : Values) (rest : Text) → All IsPrintable rest → All IsPrintable (render_items vs rest)
  render_items-IsPrintable no_items rest h = (omega arith, h)
  render_items-IsPrintable (item v vs) rest h = (
    omega arith,
    render-IsPrintable v (render_items vs rest) (render_items-IsPrintable vs rest h),
  )

  render_fields-IsPrintable :
      (fs : Fields) (rest : Text) → All IsPrintable rest → All IsPrintable (render_fields fs rest)
  render_fields-IsPrintable no_fields rest h = (omega arith, h)
  render_fields-IsPrintable (field k v fs) rest h = (
    omega arith,
    behind_string k _ (
      omega arith,
      render-IsPrintable v (render_fields fs rest) (render_fields-IsPrintable fs rest h),
    ),
  )

-- Whatever bytes names, paths and messages have, no event holds a control character: a line feed
-- in a name never ends a line of the output.
pub events-IsPrintable :
    (p : ScanProgress) (resp : ScanResponse) (node : DirectoryEntryNode) (n : ℕ)
    (now operation_id timestamp_iso message : Text) (at : Option Text)
    → All IsPrintable (format_scan_progress_ndjson_event p)
      × All IsPrintable (format_scan_terminal_ndjson_event resp n)
      × All IsPrintable (format_scan_cancelled_ndjson_event now operation_id n at message)
      × All IsPrintable (format_directory_entry_ndjson_event operation_id n timestamp_iso node)
events-IsPrintable p resp node n now i t m at = (
  rw (progress_render p) (render-IsPrintable _ [] tt),
  rw (terminal_event_render resp n) (render-IsPrintable _ [] tt),
  rw (cancellation_render now i n at m) (render-IsPrintable _ [] tt),
  rw (format_directory_entry_ndjson_event-render i n t node) (render-IsPrintable _ [] tt),
)
