-- ===== src/Source/Hostname.antt =====
-- `is_valid_hostname` and `is_valid_hostname_label`.
pub mod Grammar
use ipmaze.Base.{
  Char, code, String, Bool, true, false, not, ◌&&◌, ◌||◌, ltb, leb, all, is_some_and, if◌then◌else◌,
}
use ipmaze.Text.{is_blank, first_char, last_char, char_is, all_chars, split}
use Prim.Native.String.{len}

-- `char::is_ascii_alphanumeric`
unfoldable pub is_ascii_alphanumeric : Char → Bool
is_ascii_alphanumeric c =
    (leb b'0' (code c) && leb (code c) b'9')
    || (leb b'A' (code c) && leb (code c) b'Z')
    || (leb b'a' (code c) && leb (code c) b'z')

abbrev pub is_label_char : Char → Bool
is_label_char c = is_ascii_alphanumeric c || char_is b'-' c

unfoldable pub is_valid_hostname_label : String → Bool
is_valid_hostname_label label =
    if is_blank label || ltb 63 (len label)
    then false
    else if is_some_and (first_char label) (char_is b'-')
        || is_some_and (last_char label) (char_is b'-')
    then false
    else all_chars is_label_char label

unfoldable pub is_valid_hostname : String → Bool
is_valid_hostname value =
    if is_blank value
      || ltb 253 (len value)
      || is_some_and (first_char value) (char_is b'.')
      || is_some_and (last_char value) (char_is b'.')
    then false
    else all is_valid_hostname_label (split (char_is b'.') value)
