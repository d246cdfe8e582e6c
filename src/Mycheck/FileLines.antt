-- ===== src/Mycheck/FileLines.antt =====
-- The lines of a MySQL general log by its parts, and the rounds of the loop of `Parse` on them.
use go_txnproof.Prelude.{
  ℕ, ◌+◌, ◌≡◌, refl, ap, ◌∙◌, Bool, true, false, not, ◌&&◌, List, [], ◌∷◌, ◌++◌, Option, none, some,
  arith, Bytes, length,
}
use go_txnproof.Regexp.{Submatch, find}
use go_txnproof.Scanner.Lines.{join_lines}
use go_txnproof.Mycheck.{Entry}
use go_txnproof.Mycheck.Parse.{
  entry_regex, is_match, is_banner_line, ReadState, nth_group, entry_of, extend_last, put_other,
  put_entry, read_line,
}
use go_txnproof.Mycheck.Rendered.{LogEvent, is_event, event_text, find-event_text}

-- A part of a log file: an entry, or a line of a banner, with the lines behind it.
pub data LogPart : Type 0 where
  logged : LogEvent → LogPart
  banner : Bytes → List Bytes → LogPart

-- A line that does not look like the first line of an entry.
unfoldable pub no_entry : Bytes → Bool
no_entry l = not (is_match (find entry_regex l))

-- The further lines of a text, none of which looks like the first line of an entry or like a banner.
abbrev pub all_further : List Bytes → Bool
all_further [] = true
all_further (l ∷ ls) = no_entry l && not (is_banner_line l) && all_further ls

abbrev pub all_no_entry : List Bytes → Bool
all_no_entry [] = true
all_no_entry (l ∷ ls) = no_entry l && all_no_entry ls

abbrev pub is_part : LogPart → Bool
is_part (logged e) = is_event e && all_further e.more
is_part (banner l ls) = no_entry l && is_banner_line l && all_no_entry ls

abbrev pub all_parts : List LogPart → Bool
all_parts [] = true
all_parts (p ∷ ps) = is_part p && all_parts ps

abbrev pub part_lines : LogPart → List Bytes
part_lines (logged e) = event_text e ∷ e.more
part_lines (banner l ls) = l ∷ ls

abbrev pub file_lines : List LogPart → List Bytes
file_lines [] = []
file_lines (p ∷ ps) = part_lines p ++ file_lines ps

abbrev pub entry_at : ℕ → LogEvent → Bytes → Entry
entry_at line e text = record { thread = e.thread; command = e.command; text = text; line = line }

-- The entries of a file whose parts begin behind the line `n`.
abbrev pub entries_of : ℕ → List LogPart → List Entry
entries_of n [] = []
entries_of n (logged e ∷ ps) =
    entry_at (n + 1) e (join_lines e.first e.more) ∷ entries_of (n + 1 + length e.more) ps
entries_of n (banner l ls ∷ ps) = entries_of (n + 1 + length ls) ps

abbrev pub state : List Entry → Bool → ℕ → ReadState
state es continuing n = record { entries = es; continuing = continuing; line = n }

extend_last-append :
    (es : List Entry) (e : Entry) (text : Bytes)
    → extend_last (es ++ e ∷ []) text ≡ es ++ record e { text = e.text ++ (b'\n' ∷ text) } ∷ []
unfolding extend_last
extend_last-append [] e text = refl
extend_last-append (x ∷ []) e text = refl
extend_last-append (x ∷ y ∷ es) e text = ap (λ xs. x ∷ xs) (extend_last-append (y ∷ es) e text)

pub read_line-event :
    (es : List Entry) (b : Bool) (n : ℕ) (e : LogEvent)
    → is_event e ≡ true
    → read_line (state es b n) (event_text e)
      ≡ state (es ++ entry_at (n + 1) e e.first ∷ []) true (n + 1)
unfolding read_line put_entry entry_of nth_group
read_line-event es b n e h = rw (find-event_text e h) refl

put_entry-no_entry :
    (s : ReadState) (text : Bytes) (o : Option Submatch)
    → not (is_match o) ≡ true
    → put_entry s text o ≡ put_other s text
unfolding put_entry is_match
put_entry-no_entry s text none h = refl
put_entry-no_entry s text (some m) h = absurd (ground (arith, h))

pub read_line-further :
    (es : List Entry) (e : Entry) (n : ℕ) (l : Bytes)
    → no_entry l ≡ true
    → not (is_banner_line l) ≡ true
    → read_line (state (es ++ e ∷ []) true n) l
      ≡ state (es ++ record e { text = e.text ++ (b'\n' ∷ l) } ∷ []) true (n + 1)
unfolding read_line put_other no_entry
read_line-further es e n l h g =
    put_entry-no_entry (state (es ++ e ∷ []) true (n + 1)) l (find entry_regex l) h
    ∙ ground (arith, g, extend_last-append es e l)

pub read_line-banner :
    (es : List Entry) (b : Bool) (n : ℕ) (l : Bytes)
    → no_entry l ≡ true
    → is_banner_line l ≡ true
    → read_line (state es b n) l ≡ state es false (n + 1)
unfolding read_line put_other no_entry
read_line-banner es b n l h g =
    put_entry-no_entry (state es b (n + 1)) l (find entry_regex l) h ∙ ground (arith, g)

pub read_line-dropped :
    (es : List Entry) (n : ℕ) (l : Bytes)
    → no_entry l ≡ true
    → read_line (state es false n) l ≡ state es false (n + 1)
unfolding read_line put_other no_entry
read_line-dropped es n l h =
    put_entry-no_entry (state es false (n + 1)) l (find entry_regex l) h ∙ ground arith
