-- ===== src/Pgcheck/Rendered.antt =====
-- The lines that a PostgreSQL server writes for statements under the default log_line_prefix, and
-- what the expressions of pgcheck take from them.
use go_txnproof.Prelude.{
  ◌≡◌, refl, subst, append-nil, Bool, true, ◌&&◌, List, [], ◌∷◌, ◌++◌, Option, none, some, arith,
  Bytes, codes,
}
use go_txnproof.Regexp.{
  in_class, in_spans, all_class, Regex, nothing, cat, alt, Captures, literal, digit, space,
  any_byte, but, opt, find,
}
use go_txnproof.Regexp.Takes.{
  Takes, Takes-nothing, Takes-one, Takes-cat, Takes-cat_end, Takes-left, Takes-right, Takes-star,
  Takes-group, Takes-literal, Takes-opt_none, Takes-opt_some, Refuses-plus, Refuses-literal,
  Refuses-cat, Refuses-group, stops, find-Takes,
}
use go_txnproof.Pgcheck.Prefix.{
  digit_run, stamp_regex, xid_regex, vxid_regex, char_text, escape, escaped, in_front, compiled,
  compile_log_line_prefix,
}
use go_txnproof.Pgcheck.{
  duration_char, default_log_line_prefix, xid_name, vxid_name, body_regex, duration_regex,
  execute_regex, text_regex,
}
use go_txnproof.Regexp.Fields.{Takes-line_end, is_run, Takes-run}
use go_txnproof.Pgcheck.Fields.{Stamp, is_stamp, stamp_text, Takes-stamp}

-- How a statement was run: by the simple protocol, or as the prepared statement with a name.
pub data Via : Type 0 where
  simple : Via
  execute : Bytes → Via

-- What the prefix of a line tells: the virtual transaction is missing where none is known.
pub record LinePrefix : Type 0 where
  pub stamp : Stamp
  pub pid : Bytes
  pub xid : Bytes
  pub vxid : Option (Bytes × Bytes)

-- A statement as the server logs it, where the duration may be logged with it, with its text as lines.
pub record LogEntry : Type 0 where
  pub prefix : LinePrefix
  pub duration : Option Bytes
  pub via : Via
  pub first : Bytes
  pub more : List Bytes

abbrev pub vxid_text : Option (Bytes × Bytes) → Bytes
vxid_text none = []
vxid_text (some (backend, local)) = backend ++ (codes "/" ++ local)

abbrev pub vxid_group : Option (Bytes × Bytes) → Captures
vxid_group none = []
vxid_group (some (backend, local)) = (codes "vxid", backend ++ (codes "/" ++ local)) ∷ []

unfoldable pub prefix_text : LinePrefix → Bytes
prefix_text p =
    stamp_text p.stamp
    ++ (codes " ["
        ++ (p.pid ++ (codes "] " ++ (p.xid ++ (codes " " ++ (vxid_text p.vxid ++ codes " "))))))

abbrev pub duration_text : Option Bytes → Bytes
duration_text none = []
duration_text (some d) = codes "duration: " ++ (d ++ codes " ms  ")

abbrev pub via_text : Via → Bytes
via_text simple = codes "statement:"
via_text (execute name) = codes "execute " ++ (name ++ codes ":")

unfoldable pub body_text : LogEntry → Bytes
body_text e =
    codes "LOG:  " ++ (duration_text e.duration ++ (via_text e.via ++ (codes " " ++ e.first)))

-- What the expressions ask of the fields.
abbrev pub is_vxid : Option (Bytes × Bytes) → Bool
is_vxid none = true
is_vxid (some (backend, local)) = is_run digit backend && is_run digit local

unfoldable pub is_prefix : LinePrefix → Bool
is_prefix p = is_stamp p.stamp && is_run digit p.pid && is_run digit p.xid && is_vxid p.vxid

abbrev pub is_duration : Option Bytes → Bool
is_duration none = true
is_duration (some d) = is_run duration_char d

-- A colon in its name ends the name of a statement.
abbrev pub is_via : Via → Bool
is_via simple = true
is_via (execute name) = all_class (but b':') name

unfoldable pub is_body : LogEntry → Bool
is_body e = is_duration e.duration && is_via e.via && all_class any_byte e.first

unfoldable pub default_regex : Regex
default_regex = cat stamp_regex (
    cat (literal (codes " ")) (
      cat (literal (codes "[")) (
        cat digit_run (
          cat (literal (codes "]")) (
            cat (literal (codes " ")) (
              cat nothing (
                cat xid_regex (
                  cat (literal (codes " "))
                    (cat vxid_regex (cat (literal (codes " ")) nothing))))))))))

pub default_prefix-compiled :
    compile_log_line_prefix default_log_line_prefix ≡ compiled default_regex
unfolding compile_log_line_prefix escape escaped in_front char_text default_regex
default_prefix-compiled = refl

Takes-vxid :
    (v : Option (Bytes × Bytes)) (rest : Bytes)
    → is_vxid v ≡ true
    → stops digit rest ≡ true
    → Takes vxid_regex (vxid_text v) (vxid_group v) rest
unfolding in_class in_spans
Takes-vxid none rest h e =
    Takes-opt_none rest (Refuses-group vxid_name (Refuses-cat _ (Refuses-plus digit rest e)))
Takes-vxid (some (backend, local)) rest h e = Takes-opt_some (
    Takes-group vxid_name rest (
      Takes-cat rest (Takes-run digit backend _ (ground (arith, h)) refl) (
        Takes-cat rest (Takes-literal (codes "/") _)
          (Takes-run digit local rest (ground (arith, h)) e))))

behind_xid :
    (v : Option (Bytes × Bytes)) (rest : Bytes)
    → is_vxid v ≡ true
    → Takes
        (cat vxid_regex (cat (literal (codes " ")) nothing))
        (vxid_text v ++ codes " ")
        (vxid_group v ++ [])
        rest
unfolding in_class in_spans
behind_xid v rest h =
    Takes-cat rest (Takes-vxid v _ h refl)
      (Takes-cat rest (Takes-literal (codes " ") _) (Takes-nothing rest))

via_no_space : (v : Via) (rest : Bytes) → stops space (via_text v ++ rest) ≡ true
unfolding in_class in_spans
via_no_space simple rest = refl
via_no_space (execute name) rest = refl

Takes-default :
    (p : LinePrefix) (rest : Bytes)
    → is_prefix p ≡ true
    → Takes default_regex (prefix_text p) ((xid_name, p.xid) ∷ (vxid_group p.vxid ++ [])) rest
unfolding in_class in_spans default_regex prefix_text is_prefix
Takes-default p rest h = Takes-cat rest (Takes-stamp p.stamp _ (ground (arith, h)) refl) (
    Takes-cat rest (Takes-literal (codes " ") _) (
      Takes-cat rest (Takes-literal (codes "[") _) (
        Takes-cat rest (Takes-run digit p.pid _ (ground (arith, h)) refl) (
          Takes-cat rest (Takes-literal (codes "]") _) (
            Takes-cat rest (Takes-literal (codes " ") _) (
              Takes-cat rest (Takes-nothing _) (
                Takes-cat rest
                  (Takes-group xid_name _ (Takes-run digit p.xid _ (ground (arith, h)) refl))
                  (Takes-cat rest (Takes-literal (codes " ") _)
                    (behind_xid p.vxid rest (ground (arith, h)))))))))))

-- A duration has a digit or a point first, and its expression refuses what names the protocol.
Takes-duration :
    (d : Option Bytes) (v : Via) (rest : Bytes)
    → is_duration d ≡ true
    → Takes (opt duration_regex) (duration_text d) [] (via_text v ++ rest)
unfolding in_class in_spans all_class
Takes-duration none simple rest h =
    Takes-opt_none _ (Refuses-cat _ (Refuses-literal b'd' b's' _ _ (omega arith)))
Takes-duration none (execute name) rest h =
    Takes-opt_none _ (Refuses-cat _ (Refuses-literal b'd' b'e' _ _ (omega arith)))
Takes-duration (some d) v rest h = Takes-opt_some (
    Takes-cat _ (Takes-literal (codes "duration: ") _) (
      Takes-cat _ (Takes-run duration_char d _ h refl) (
        Takes-cat _ (Takes-literal (codes " ms") _)
          (Takes-run space (codes "  ") _ refl (via_no_space v rest)))))

Takes-via :
    (v : Via) (rest : Bytes)
    → is_via v ≡ true
    → Takes (alt (literal (codes "statement:")) execute_regex) (via_text v) [] rest
unfolding in_class in_spans
Takes-via simple rest h = Takes-left _ (Takes-literal (codes "statement:") rest)
Takes-via (execute name) rest h = Takes-right (Refuses-literal b's' b'e' _ _ (omega arith)) (
    Takes-cat rest (Takes-literal (codes "execute ") _)
      (Takes-cat rest (Takes-star (but b':') name _ h refl) (Takes-literal (codes ":") rest)))

Takes-text :
    (s : Bytes) → all_class any_byte s ≡ true → Takes text_regex (codes " " ++ s) (([], s) ∷ []) []
unfolding in_class in_spans
Takes-text s h = Takes-cat_end (Takes-opt_some (Takes-one space b' ' _ refl)) (Takes-line_end s h)

body_no_space :
    (d : Option Bytes) (v : Via) (rest : Bytes)
    → stops space (duration_text d ++ (via_text v ++ rest)) ≡ true
unfolding in_class in_spans
body_no_space none v rest = via_no_space v rest
body_no_space (some d) v rest = refl

Takes-body :
    (e : LogEntry) → is_body e ≡ true → Takes body_regex (body_text e) (([], e.first) ∷ []) []
unfolding in_class in_spans all_class body_text is_body
Takes-body e h =
    let text = codes " " ++ e.first in
    Takes-cat_end (Takes-literal (codes "LOG:") _) (
      Takes-cat_end (Takes-run space (codes "  ") _ refl (body_no_space e.duration e.via text)) (
        Takes-cat_end (Takes-duration e.duration e.via text (ground (arith, h))) (
          Takes-cat_end (Takes-via e.via text (ground (arith, h)))
            (Takes-text e.first (ground (arith, h))))))

-- The match of a prefix, with the identifiers that it names.
pub find-default :
    (p : LinePrefix) (rest : Bytes)
    → is_prefix p ≡ true
    → find default_regex (prefix_text p ++ rest)
      ≡ some (record { rest = rest; groups = (xid_name, p.xid) ∷ vxid_group p.vxid })
find-default p rest h =
    subst
      (λ gs.
        find default_regex (prefix_text p ++ rest)
        ≡ some (record { rest = rest; groups = (xid_name, p.xid) ∷ gs }))
      (append-nil (vxid_group p.vxid)) (find-Takes rest (Takes-default p rest h))

-- The match of a body, with the first line of the statement.
pub find-body :
    (e : LogEntry)
    → is_body e ≡ true
    → find body_regex (body_text e) ≡ some (record { rest = []; groups = ([], e.first) ∷ [] })
find-body e h =
    subst (λ s. find body_regex s ≡ some (record { rest = []; groups = ([], e.first) ∷ [] }))
      (append-nil (body_text e)) (find-Takes [] (Takes-body e h))
