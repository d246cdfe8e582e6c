-- ===== src/Mycheck/RoundTrip.antt =====
-- What mycheck reads back from the lines of a server, and its verdict on them.
use go_txnproof.Prelude.{
  ℕ, ◌+◌, ◌≡◌, sym, ap, ◌∙◌, Bool, true, false, List, [], ◌∷◌, ◌++◌, append-nil, append_assoc,
  arith, Bytes, length,
}
use go_txnproof.Classify.{StatementKind}
use go_txnproof.Scanner.Lines.{unlines, reader_of, all_lines, join_lines, scan-unlines}
use go_txnproof.Crosscheck.Reading.{parsed}
use go_txnproof.Mycheck.{Entry, reconstruct}
use go_txnproof.Mycheck.Parse.{read_lines, parse_scanned, parse}
use go_txnproof.Mycheck.Rendered.{LogEvent}
use go_txnproof.Mycheck.FileLines.{
  LogPart, logged, banner, all_further, all_no_entry, all_parts, file_lines, entry_at, entries_of,
  state, read_line-event, read_line-further, read_line-banner, read_line-dropped,
}

read_lines-further :
    (es : List Entry) (n : ℕ) (e : LogEvent) (line : ℕ) (text : Bytes) (ls rest : List Bytes)
    → all_further ls ≡ true
    → read_lines (state (es ++ entry_at line e text ∷ []) true n) (ls ++ rest)
      ≡ read_lines
          (state (es ++ entry_at line e (join_lines text ls) ∷ []) true (n + length ls))
          rest
unfolding read_lines
read_lines-further es n e line text [] rest h =
    ap (λ m. read_lines (state (es ++ entry_at line e text ∷ []) true m) rest) (omega arith)
read_lines-further es n e line text (l ∷ ls) rest h =
    ap (λ s. read_lines s (ls ++ rest))
      (read_line-further es (entry_at line e text) n l (ground (arith, h)) (ground (arith, h)))
    ∙ read_lines-further es (n + 1) e line (text ++ (b'\n' ∷ l)) ls rest (ground (arith, h))
    ∙ ap
        (λ m.
          read_lines (state (es ++ entry_at line e (join_lines text (l ∷ ls)) ∷ []) true m) rest)
        (omega arith)

read_lines-dropped :
    (es : List Entry) (n : ℕ) (ls rest : List Bytes)
    → all_no_entry ls ≡ true
    → read_lines (state es false n) (ls ++ rest) ≡ read_lines (state es false (n + length ls)) rest
unfolding read_lines
read_lines-dropped es n [] rest h = ap (λ m. read_lines (state es false m) rest) (omega arith)
read_lines-dropped es n (l ∷ ls) rest h =
    ap (λ s. read_lines s (ls ++ rest)) (read_line-dropped es n l (ground (arith, h)))
    ∙ read_lines-dropped es (n + 1) ls rest (ground (arith, h))
    ∙ ap (λ m. read_lines (state es false m) rest) (omega arith)

read_lines-file_lines :
    (es : List Entry) (b : Bool) (n : ℕ) (ps : List LogPart)
    → all_parts ps ≡ true
    → (read_lines (state es b n) (file_lines ps)).entries ≡ es ++ entries_of n ps
unfolding read_lines
read_lines-file_lines es b n [] h = sym (append-nil es)
read_lines-file_lines es b n (logged e ∷ ps) h =
    let x = entry_at (n + 1) e (join_lines e.first e.more) in
    let m = n + 1 + length e.more in
    ap (λ s. (read_lines s (e.more ++ file_lines ps)).entries)
      (read_line-event es b n e (ground (arith, h)))
    ∙ ap (λ s. s.entries)
        (read_lines-further es (n + 1) e (n + 1) e.first e.more (file_lines ps) (ground (arith, h)))
    ∙ read_lines-file_lines (es ++ x ∷ []) true m ps (ground (arith, h))
    ∙ append_assoc es (x ∷ []) (entries_of m ps)
read_lines-file_lines es b n (banner l ls ∷ ps) h =
    ap (λ s. (read_lines s (ls ++ file_lines ps)).entries)
      (read_line-banner es b n l (ground (arith, h)) (ground (arith, h)))
    ∙ ap (λ s. s.entries) (read_lines-dropped es (n + 1) ls (file_lines ps) (ground (arith, h)))
    ∙ read_lines-file_lines es false (n + 1 + length ls) ps (ground (arith, h))

-- From the lines of well-formed entries and banners `Parse` reads exactly the entries, each with its
-- argument rejoined and the line it began on, and reconstructs the transactions from them. The
-- further lines of an argument must not look like the first line of an entry or like a banner.
pub parse-file_lines :
    (classify : Bytes → StatementKind) (ps : List LogPart)
    → all_parts ps ≡ true
    → all_lines (file_lines ps) ≡ true
    → parse classify (reader_of (unlines (file_lines ps)))
      ≡ parsed (reconstruct classify (entries_of 0 ps))
unfolding parse parse_scanned
parse-file_lines classify ps h lines =
    ap (parse_scanned classify) (scan-unlines (file_lines ps) lines)
    ∙ ap (λ es. parsed (reconstruct classify es)) (read_lines-file_lines [] false 0 ps h)
