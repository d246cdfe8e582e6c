-- ===== src/Classify.antt =====
-- classify.go: the kind of a statement, read off its leading keyword.
pub mod Strip
pub mod Comments
pub mod Skips
pub mod Tokens
pub mod Letters
pub mod Buffer
use go_txnproof.Prelude.{
  ℕ, zero, suc, ◌+◌, ◌-◌, Bool, true, false, not, ◌&&◌, ◌||◌, List, [], ◌∷◌, ◌++◌, Option, none,
  some, Bytes, codes, leb, ltb, ◌==◌, if◌then◌else◌, length, drop, bytes_eq, one_of, has_prefix,
  index_byte, index, trim_left,
}

pub data StatementKind : Type 0 where
  other read write begin commit rollback : StatementKind

unfoldable pub is_ident_char : ℕ → Bool
is_ident_char c =
    (leb b'a' c && leb c b'z')
    || (leb b'A' c && leb c b'Z')
    || (leb b'0' c && leb c b'9')
    || c == b'_'

-- What follows the first newline; the empty text if there is none.
unfoldable pub after_newline : Option ℕ → Bytes → Bytes
after_newline none q = []
after_newline (some idx) q = drop (idx + 1) q

-- What follows the first "*/"; the empty text if there is none.
unfoldable pub after_block : Option ℕ → Bytes → Bytes
after_block none q = []
after_block (some idx) q = drop (idx + 2) q

-- The loop of `stripLeading`: a round of it drops blanks and one comment. Where the search finds no
-- end of the comment, `return ""` is a last round on the empty text.
unfoldable pub strip_loop : ℕ → Bytes → Bytes
strip_loop zero q = q
strip_loop (suc fuel) q =
    let t = trim_left q in
    let line = strip_loop fuel (after_newline (index_byte t b'\n') t) in
    let block = strip_loop fuel (after_block (index t (codes "*/")) t) in
    if has_prefix t (codes "--") then line else if has_prefix t (codes "/*") then block else t

-- Each comment takes two bytes at least, so the length is more rounds than the loop makes.
unfoldable pub strip_leading : Bytes → Bytes
strip_leading q = strip_loop (suc (length q)) q

abbrev pub max_keyword_len : ℕ
max_keyword_len = 8

-- q[:end] and q[end:] for the first `end` at which no identifier character stands.
unfoldable pub ident_prefix : Bytes → Bytes
ident_prefix [] = []
ident_prefix (c ∷ q) = if is_ident_char c then c ∷ ident_prefix q else []

unfoldable pub ident_suffix : Bytes → Bytes
ident_suffix [] = []
ident_suffix (c ∷ q) = if is_ident_char c then ident_suffix q else c ∷ q

unfoldable pub leading_token : Bytes → Bytes
leading_token q = ident_prefix (strip_leading q)

unfoldable pub ascii_upper : ℕ → ℕ
ascii_upper c = if leb b'a' c && leb c b'z' then c - (b'a' - b'A') else c

abbrev pub ascii_upper_bytes : Bytes → Bytes
ascii_upper_bytes [] = []
ascii_upper_bytes (c ∷ q) = ascii_upper c ∷ ascii_upper_bytes q

-- The bytes written to the buffer; `none` where the token does not fit.
unfoldable pub ascii_upper_token : Bytes → Option Bytes
ascii_upper_token tok =
    if ltb max_keyword_len (length tok) then none else some (ascii_upper_bytes tok)

-- The two letters of TO, in either case each.
unfoldable pub is_to : Bytes → Bool
is_to (t ∷ o ∷ []) = (t == b'T' || t == b't') && (o == b'O' || o == b'o')
is_to _ = false

unfoldable pub second_token_is_to : Bytes → Bool
second_token_is_to q = is_to (ident_prefix (strip_leading (ident_suffix (strip_leading q))))

abbrev pub cte_write_words : List Bytes
cte_write_words =
    codes "INSERT"
    ∷ codes "UPDATE"
    ∷ codes "DELETE"
    ∷ codes "MERGE"
    ∷ codes "TRUNCATE"
    ∷ codes "REPLACE"
    ∷ []

-- The test at the end of a token.
unfoldable pub is_cte_write : Bytes → Bool
is_cte_write tok = elim (ascii_upper_token tok) [ none ↦ false | some t ↦ one_of cte_write_words t ]

-- The test that the loop makes where no identifier character stands, on q[start:i].
-- The empty token stands for `start < 0`.
unfoldable pub ends_write : Bytes → Bool
ends_write [] = false
ends_write (c ∷ tok) = is_cte_write (c ∷ tok)

-- The loop of `containsWriteToken` from the byte `i` on; `tok` is q[start:i].
unfoldable pub contains_write_from : Bytes → Bytes → Bool
contains_write_from tok [] = ends_write tok
contains_write_from tok (c ∷ q) = elim (is_ident_char c) [
  | true ↦ contains_write_from (tok ++ c ∷ []) q
  | false ↦ ends_write tok || contains_write_from [] q
]

unfoldable pub contains_write_token : Bytes → Bool
contains_write_token q = contains_write_from [] q

abbrev pub read_words : List Bytes
read_words =
    codes "SELECT"
    ∷ codes "SHOW"
    ∷ codes "EXPLAIN"
    ∷ codes "VALUES"
    ∷ codes "TABLE"
    ∷ codes "FETCH"
    ∷ codes "DECLARE"
    ∷ []

abbrev pub write_words : List Bytes
write_words =
    codes "INSERT"
    ∷ codes "UPDATE"
    ∷ codes "DELETE"
    ∷ codes "MERGE"
    ∷ codes "TRUNCATE"
    ∷ codes "REPLACE"
    ∷ codes "UPSERT"
    ∷ codes "COPY"
    ∷ codes "IMPORT"
    ∷ codes "CREATE"
    ∷ codes "ALTER"
    ∷ codes "DROP"
    ∷ codes "GRANT"
    ∷ codes "REVOKE"
    ∷ codes "COMMENT"
    ∷ codes "REFRESH"
    ∷ codes "CALL"
    ∷ codes "DO"
    ∷ []

abbrev pub begin_words : List Bytes
begin_words = codes "BEGIN" ∷ codes "START" ∷ []

abbrev pub commit_words : List Bytes
commit_words = codes "COMMIT" ∷ codes "END" ∷ []

abbrev pub rollback_words : List Bytes
rollback_words = codes "ROLLBACK" ∷ codes "ABORT" ∷ []

-- The `switch` on the uppercased leading token.
unfoldable pub keyword_kind : Bytes → Bytes → StatementKind
keyword_kind q word =
    if one_of read_words word
    then read
    else if one_of write_words word
    then write
    else if one_of begin_words word
    then begin
    else if one_of commit_words word
    then commit
    else if one_of rollback_words word
    then (if second_token_is_to q then other else rollback)
    else if one_of (codes "WITH" ∷ []) word
    then (if contains_write_token q then write else read)
    else other

-- `none` is the token that does not fit the buffer.
unfoldable pub classify_word : Bytes → Option Bytes → StatementKind
classify_word q none = other
classify_word q (some word) = keyword_kind q word

unfoldable pub default_classifier : Bytes → StatementKind
default_classifier q = classify_word q (ascii_upper_token (leading_token q))
