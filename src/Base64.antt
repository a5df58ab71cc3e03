-- ===== src/Base64.antt =====
-- `base64.b64decode(s)` without validation, and the strict `bytes.decode('utf-8')`.
pub mod Ascii
use cluster_size_operator_fo.Prelude.{
  ℕ, ◌+◌, ◌-◌, ◌*◌, ◌/◌, ◌%◌, Bool, true, ◌&&◌, Option, none, some, List, [], ◌∷◌, ◌++◌, leb, ltb,
  ◌==◌, nat_eq, if◌then◌else◌,
}
use mathlib.Core.Option
use cluster_size_operator_fo.Text.{Text}

abbrev pub Bytes : Type 0
Bytes = List ℕ

-- The value of a character of the alphabet; 64 for any other.
unfoldable pub sextet : ℕ → ℕ
sextet c =
    if leb b'A' c && leb c b'Z'
    then c - b'A'
    else if leb b'a' c && leb c b'z'
    then c - b'a' + 26
    else if leb b'0' c && leb c b'9'
    then c - b'0' + 52
    else if c == b'+'
    then 62
    else if c == b'/'
    then 63
    else 64

-- The loop of `binascii.a2b_base64`: `quad` counts the characters of the current group of four,
-- `left` holds the bits that wait, `pads` counts the `=` in a row.
unfoldable pub decode_quads : Text → ℕ → ℕ → ℕ → Option Bytes
unfolding sextet
decode_quads [] quad left pads = if quad == 0 then some [] else none
decode_quads (c ∷ s) quad left pads =
    let v = sextet c in
    let unread = decode_quads s quad left pads in
    let pad = decode_quads s quad left (if leb 2 quad then pads + 1 else pads) in
    let first = decode_quads s 1 v 0 in
    let second = Option.map (λ r. (left * 4 + v / 16) ∷ r) (decode_quads s 2 (v % 16) 0) in
    let third = Option.map (λ r. (left * 16 + v / 4) ∷ r) (decode_quads s 3 (v % 4) 0) in
    let fourth = Option.map (λ r. (left * 64 + v) ∷ r) (decode_quads s 0 0 0) in
    if c == b'='
    then (if leb 2 quad && leb 4 (quad + (pads + 1)) then some [] else pad)
    else if v == 64
    then unread
    else if quad == 0
    then first
    else if quad == 1
    then second
    else if quad == 2
    then third
    else fourth

abbrev is_ascii : Text → Bool
is_ascii [] = true
is_ascii (c ∷ s) = ltb c 128 && is_ascii s

-- A text with a character beyond ASCII is a `ValueError`.
unfoldable pub b64decode : Text → Option Bytes
unfolding decode_quads
b64decode s = if is_ascii s then decode_quads s 0 0 0 else none

-- `need` more bytes belong to the character that `code` begins, the next of them in `lo` to `hi`.
-- `none` stands for the `UnicodeDecodeError`.
unfoldable pub decode_utf8 : Bytes → ℕ → ℕ → ℕ → ℕ → Option Text
decode_utf8 [] need code lo hi = if need == 0 then some [] else none
decode_utf8 (b ∷ s) need code lo hi =
    let c = code * 64 + (b - 0x80) in
    let ascii = Option.map (λ r. b ∷ r) (decode_utf8 s 0 0 0 0) in
    let two = decode_utf8 s 1 (b - 0xc0) 0x80 0xbf in
    let three =
      decode_utf8 s 2 (b - 0xe0) (if b == 0xe0 then 0xa0 else 0x80)
        (if b == 0xed then 0x9f else 0xbf) in
    let four =
      decode_utf8 s 3 (b - 0xf0) (if b == 0xf0 then 0x90 else 0x80)
        (if b == 0xf4 then 0x8f else 0xbf) in
    let done = Option.map (λ r. c ∷ r) (decode_utf8 s 0 0 0 0) in
    let more = decode_utf8 s (need - 1) c 0x80 0xbf in
    if need == 0
    then (if ltb b 0x80
        then ascii
        else if leb 0xc2 b && leb b 0xdf
        then two
        else if leb 0xe0 b && leb b 0xef
        then three
        else if leb 0xf0 b && leb b 0xf4
        then four
        else none)
    else if leb lo b && leb b hi
    then (if need == 1 then done else more)
    else none

-- The strict `bytes.decode('utf-8')`
unfoldable pub utf8_decode : Bytes → Option Text
unfolding decode_utf8
utf8_decode s = decode_utf8 s 0 0 0 0

-- `base64.b64decode(s).decode('utf-8')`
unfoldable pub decode_text : Text → Option Text
unfolding b64decode utf8_decode Option.bind
decode_text s = Option.bind (b64decode s) utf8_decode

-- The bytes of a character, and `s.encode('utf-8')`, for a text without surrogates.
unfoldable pub encode_char : ℕ → Bytes
encode_char c =
    if ltb c 0x80
    then c ∷ []
    else if ltb c 0x800
    then (0xc0 + c / 64) ∷ (0x80 + c % 64) ∷ []
    else if ltb c 0x10000
    then (0xe0 + c / 4096) ∷ (0x80 + c / 64 % 64) ∷ (0x80 + c % 64) ∷ []
    else (0xf0 + c / 262144) ∷ (0x80 + c / 4096 % 64) ∷ (0x80 + c / 64 % 64) ∷ (0x80 + c % 64) ∷ []

unfoldable pub utf8_encode : Text → Bytes
utf8_encode [] = []
utf8_encode (c ∷ s) = encode_char c ++ utf8_encode s

-- The character of a value below 64.
abbrev pub sextet_char : ℕ → ℕ
sextet_char v =
    if ltb v 26
    then v + b'A'
    else if ltb v 52
    then v - 26 + b'a'
    else if ltb v 62
    then v - 52 + b'0'
    else if v == 62
    then b'+'
    else b'/'

-- `base64.b64encode(s)`
unfoldable pub b64encode : Bytes → Text
b64encode [] = []
b64encode (a ∷ []) = sextet_char (a / 4) ∷ sextet_char (a % 4 * 16) ∷ b'=' ∷ b'=' ∷ []
b64encode (a ∷ b ∷ []) =
    sextet_char (a / 4) ∷ sextet_char (a % 4 * 16 + b / 16) ∷ sextet_char (b % 16 * 4) ∷ b'=' ∷ []
b64encode (a ∷ b ∷ c ∷ s) =
    sextet_char (a / 4)
    ∷ sextet_char (a % 4 * 16 + b / 16)
    ∷ sextet_char (b % 16 * 4 + c / 64)
    ∷ sextet_char (c % 64)
    ∷ b64encode s
