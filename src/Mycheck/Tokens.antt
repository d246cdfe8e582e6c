-- ===== src/Mycheck/Tokens.antt =====
-- mycheck/parse.go: the tokens of a MySQL statement, and the statements that commit implicitly.
use go_txnproof.Prelude.{
  ℕ, zero, suc, Bool, true, false, not, ◌&&◌, ◌||◌, List, [], ◌∷◌, ◌++◌, Bytes, codes, bytes_eq,
  one_of, has_prefix, index_byte, index, trim_left, if◌then◌else◌, length,
}
use go_txnproof.Classify.{
  after_newline, after_block, ascii_upper_bytes, ident_prefix, ident_suffix, is_ident_char,
}

-- The loop of `stripLeading`, which knows the comments of MySQL besides.
unfoldable pub strip_loop : ℕ → Bytes → Bytes
strip_loop zero q = q
strip_loop (suc fuel) q =
    let t = trim_left q in
    let line = strip_loop fuel (after_newline (index_byte t b'\n') t) in
    let block = strip_loop fuel (after_block (index t (codes "*/")) t) in
    if has_prefix t (codes "--") || has_prefix t (codes "#")
    then line
    else if has_prefix t (codes "/*")
    then block
    else t

-- Each comment takes a byte at least.
unfoldable pub strip_leading : Bytes → Bytes
strip_leading q = strip_loop (suc (length q)) q

-- `firstToken`; an identifier has ASCII letters only, so strings.ToUpper is that of ASCII.
unfoldable pub first_token : Bytes → Bytes
first_token q = ascii_upper_bytes (ident_prefix (strip_leading q))

-- `secondToken`
unfoldable pub second_token : Bytes → Bytes
second_token q = ascii_upper_bytes (ident_prefix (strip_leading (ident_suffix (strip_leading q))))

-- The test at the end of a token; the empty one stands for `start < 0`.
unfoldable pub ends_token : Bytes → Bytes → Bool
ends_token token [] = false
ends_token token (c ∷ tok) = bytes_eq (ascii_upper_bytes (c ∷ tok)) token

-- The loop of `containsToken` from the byte `i` on; `tok` is q[start:i].
unfoldable pub contains_from : Bytes → Bytes → Bytes → Bool
contains_from token tok [] = ends_token token tok
contains_from token tok (c ∷ q) = elim (is_ident_char c) [
  | true ↦ contains_from token (tok ++ c ∷ []) q
  | false ↦ ends_token token tok || contains_from token [] q
]

unfoldable pub contains_token : Bytes → Bytes → Bool
contains_token q token = contains_from token [] q

abbrev pub implicit_commit_leaders : List Bytes
implicit_commit_leaders =
    codes "CREATE"
    ∷ codes "ALTER"
    ∷ codes "DROP"
    ∷ codes "RENAME"
    ∷ codes "TRUNCATE"
    ∷ codes "GRANT"
    ∷ codes "REVOKE"
    ∷ codes "INSTALL"
    ∷ codes "UNINSTALL"
    ∷ codes "ANALYZE"
    ∷ codes "CHECK"
    ∷ codes "OPTIMIZE"
    ∷ codes "REPAIR"
    ∷ codes "FLUSH"
    ∷ codes "CACHE"
    ∷ codes "LOCK"
    ∷ codes "UNLOCK"
    ∷ []

abbrev pub temporary_leaders : List Bytes
temporary_leaders = codes "CREATE" ∷ codes "DROP" ∷ []

-- `isImplicitCommit`
unfoldable pub is_implicit_commit : Bytes → Bool
is_implicit_commit q =
    let first = first_token q in
    if not (one_of implicit_commit_leaders first)
    then false
    else not (one_of temporary_leaders first && bytes_eq (second_token q) (codes "TEMPORARY"))
