-- ===== src/Pgcheck/Messages.antt =====
-- The messages of a PostgreSQL log, and the identity that a prefix gives.
use go_txnproof.Prelude.{
  ℕ, ◌+◌, ◌≡◌, refl, Bool, true, false, not, ◌&&◌, List, [], ◌∷◌, ◌++◌, Option, none, some, arith,
  Bytes, codes, bytes_eq, has_suffix, length, if◌then◌else◌,
}
use go_txnproof.Classify.{StatementKind}
use go_txnproof.Regexp.{Class, in_class, in_spans, all_class, digit}
use go_txnproof.Scanner.Lines.{join_lines}
use go_txnproof.Crosscheck.{LogStatement}
use go_txnproof.Pgcheck.{identity, put_group, put_groups, xid_name}
use go_txnproof.Regexp.Fields.{is_run}
use go_txnproof.Pgcheck.Bodies.{carries_statement}
use go_txnproof.Pgcheck.Rendered.{
  LinePrefix, LogEntry, is_vxid, is_prefix, is_body, prefix_text, body_text, vxid_group,
}

-- A message of a server: a statement, or any message that carries none, with its text as lines.
pub data Message : Type 0 where
  statement : LogEntry → Message
  other_message : LinePrefix → Bytes → List Bytes → Message

abbrev pub is_message : Message → Bool
is_message (statement e) = is_prefix e.prefix && is_body e
is_message (other_message p text more) = is_prefix p && not (carries_statement text)

abbrev pub all_messages : List Message → Bool
all_messages [] = true
all_messages (m ∷ ms) = is_message m && all_messages ms

abbrev pub tabbed : List Bytes → List Bytes
tabbed [] = []
tabbed (l ∷ ls) = (b'\t' ∷ l) ∷ tabbed ls

abbrev pub message_lines : Message → List Bytes
message_lines (statement e) = (prefix_text e.prefix ++ body_text e) ∷ tabbed e.more
message_lines (other_message p text more) = (prefix_text p ++ text) ∷ tabbed more

abbrev pub log_lines : List Message → List Bytes
log_lines [] = []
log_lines (m ∷ ms) = message_lines m ++ log_lines ms

-- The identity that a prefix gives: the virtual transaction with a local number other than 0, else
-- the real transaction other than 0, else none.
abbrev pub real_tx : Bytes → Bytes
real_tx xid = if bytes_eq xid (codes "0") then [] else codes "xid " ++ xid

abbrev pub tx_of : Bytes → Option (Bytes × Bytes) → Bytes
tx_of xid none = real_tx xid
tx_of xid (some (backend, local)) =
    if bytes_eq local (codes "0") then real_tx xid else backend ++ (codes "/" ++ local)

abbrev pub statement_of : (Bytes → StatementKind) → ℕ → LogEntry → LogStatement
statement_of classify line e =
    let text = join_lines e.first e.more in
    record {
      sql = text;
      kind = classify text;
      tx_id = tx_of e.prefix.xid e.prefix.vxid;
      line = line;
    }

-- The statements of a log whose messages begin behind the line `n`.
abbrev pub statements_of : (Bytes → StatementKind) → ℕ → List Message → List LogStatement
statements_of classify n [] = []
statements_of classify n (statement e ∷ ms) =
    statement_of classify (n + 1) e ∷ statements_of classify (n + 1 + length e.more) ms
statements_of classify n (other_message p text more ∷ ms) =
    statements_of classify (n + 1 + length more) ms

-- The local number 0 is what ends a virtual transaction in "/0".
no_slash : (l : Bytes) → all_class digit l ≡ true → has_suffix l (codes "/0") ≡ false
unfolding all_class in_class in_spans has_suffix bytes_eq
no_slash [] h = refl
no_slash (c ∷ l) h = ground (arith, h, no_slash l)

has_suffix-vxid :
    (b l : Bytes)
    → all_class digit b ≡ true
    → all_class digit l ≡ true
    → has_suffix (b ++ (codes "/" ++ l)) (codes "/0") ≡ bytes_eq l (codes "0")
unfolding all_class in_class in_spans has_suffix bytes_eq
has_suffix-vxid [] l h g = ground (arith, no_slash l g)
has_suffix-vxid (c ∷ b) l h g = ground (arith, h, has_suffix-vxid b l)

run_all : (x : Class) (s : Bytes) → is_run x s ≡ true → all_class x s ≡ true
unfolding all_class
run_all x [] h = refl
run_all x (c ∷ s) h = h

pub identity-prefix :
    (xid : Bytes) (v : Option (Bytes × Bytes))
    → is_run digit xid ≡ true
    → is_vxid v ≡ true
    → identity (put_groups ((xid_name, xid) ∷ vxid_group v) (record { tx_id = []; xid = [] }))
      ≡ tx_of xid v
unfolding identity put_groups put_group bytes_eq
identity-prefix [] v h g = absurd (ground (arith, h))
identity-prefix (c ∷ xid) none h g = ground arith
identity-prefix (c ∷ xid) (some ([], local)) h g = absurd (ground (arith, g))
identity-prefix (c ∷ xid) (some (d ∷ backend, local)) h g =
    let all = all_class digit in
    let b : all (d ∷ backend) ≡ true = ground (arith, g) in
    let l : is_run digit local ≡ true = ground (arith, g) in
    rw (has_suffix-vxid (d ∷ backend) local b (run_all digit local l)) (ground arith)
