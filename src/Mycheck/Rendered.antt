-- ===== src/Mycheck/Rendered.antt =====
-- The lines that a MySQL server writes for the entries of its general log, and what the expression of
-- mycheck takes from them.
use go_txnproof.Prelude.{
  ℕ, ◌≡◌, refl, subst, append-nil, Bool, true, ◌&&◌, List, [], ◌∷◌, ◌++◌, some, arith, Bytes, codes,
}
use go_txnproof.Regexp.{in_class, in_spans, all_class, digit, any_byte, but, find, byte_class}
use go_txnproof.Regexp.Takes.{
  Takes, Takes-one, Takes-cat, Takes-cat_end, Takes-left, Takes-right, Takes-star, Takes-group,
  Takes-literal, Refuses-literal, stops, find-Takes,
}
use go_txnproof.Regexp.Fields.{
  is_run, is_digits, Moment, is_moment, moment_text, Takes-run, Takes-digits, Takes-field,
  Takes-date_time, Takes-line_end,
}
use go_txnproof.Mycheck.Parse.{sign, offset_regex, entry_regex}

-- The offset of a time stamp, with the byte of its sign.
pub data Offset : Type 0 where
  utc : Offset
  offset : ℕ → Bytes → Bytes → Offset

-- An entry as the server writes it, with its argument as lines.
pub record LogEvent : Type 0 where
  pub moment : Moment
  pub fraction : Bytes
  pub zone : Offset
  pub padding : Bytes
  pub thread : Bytes
  pub command : Bytes
  pub first : Bytes
  pub more : List Bytes

abbrev pub is_offset : Offset → Bool
is_offset utc = true
is_offset (offset s hour minute) = in_class sign s && is_digits 2 hour && is_digits 2 minute

abbrev pub offset_text : Offset → Bytes
offset_text utc = codes "Z"
offset_text (offset s hour minute) = s ∷ (hour ++ (codes ":" ++ minute))

unfoldable pub is_event : LogEvent → Bool
is_event e =
    is_moment e.moment
    && is_run digit e.fraction
    && is_offset e.zone
    && all_class (byte_class b' ') e.padding
    && is_run digit e.thread
    && is_run (but b'\t') e.command
    && all_class any_byte e.first

unfoldable pub event_text : LogEvent → Bytes
event_text e = moment_text (codes "T") e.moment (
    codes "."
    ++ (e.fraction
        ++ (offset_text e.zone
            ++ (codes "\t"
                ++ (e.padding
                    ++ (e.thread ++ (codes " " ++ (e.command ++ (codes "\t" ++ e.first)))))))))

Takes-offset :
    (o : Offset) (rest : Bytes) → is_offset o ≡ true → Takes offset_regex (offset_text o) [] rest
unfolding in_class in_spans
Takes-offset utc rest h = Takes-left _ (Takes-literal (codes "Z") rest)
Takes-offset (offset s hour minute) rest h =
    Takes-right (Refuses-literal b'Z' s [] _ (ground (arith, h))) (
      Takes-cat rest (Takes-one sign s _ (ground (arith, h))) (
        Takes-field 2 hour (codes ":") rest (ground (arith, h))
          (Takes-digits 2 minute rest (ground (arith, h)))))

offset_text-no_digit :
    (o : Offset) (rest : Bytes) → is_offset o ≡ true → stops digit (offset_text o ++ rest) ≡ true
unfolding in_class in_spans
offset_text-no_digit utc rest h = refl
offset_text-no_digit (offset s hour minute) rest h = ground (arith, h)

-- The number of a thread begins with a digit, which is no padding.
thread-no_blank :
    (t rest : Bytes) → is_run digit t ≡ true → stops (byte_class b' ') (t ++ rest) ≡ true
unfolding in_class in_spans all_class
thread-no_blank [] rest h = absurd (ground (arith, h))
thread-no_blank (c ∷ t) rest h = ground (arith, h)

Takes-event :
    (e : LogEvent)
    → is_event e ≡ true
    → Takes entry_regex (event_text e) (([], e.thread) ∷ ([], e.command) ∷ ([], e.first) ∷ []) []
unfolding in_class in_spans is_event event_text
Takes-event e h = Takes-date_time (codes "T") e.moment [] (ground (arith, h)) (
    Takes-cat_end (Takes-literal (codes ".") _) (
      Takes-cat_end
        (Takes-run digit e.fraction _ (ground (arith, h))
          (offset_text-no_digit e.zone _ (ground (arith, h))))
        (Takes-cat_end (Takes-offset e.zone _ (ground (arith, h))) (
          Takes-cat_end (Takes-literal (codes "\t") _) (
            Takes-cat_end
              (Takes-star (byte_class b' ') e.padding _ (ground (arith, h))
                (thread-no_blank e.thread _ (ground (arith, h))))
              (Takes-cat_end
                (Takes-group [] _ (Takes-run digit e.thread _ (ground (arith, h)) refl))
                (Takes-cat_end (Takes-literal (codes " ") _) (
                  Takes-cat_end
                    (Takes-group [] _ (Takes-run (but b'\t') e.command _ (ground (arith, h)) refl))
                    (Takes-cat_end (Takes-literal (codes "\t") _)
                      (Takes-line_end e.first (ground (arith, h))))))))))))

-- The match of an entry's first line, with the groups that `Parse` reads.
pub find-event_text :
    (e : LogEvent)
    → is_event e ≡ true
    → find entry_regex (event_text e)
      ≡ some (record { rest = []; groups = ([], e.thread) ∷ ([], e.command) ∷ ([], e.first) ∷ [] })
find-event_text e h =
    subst
      (λ s.
        find entry_regex s
        ≡ some
            (record { rest = []; groups = ([], e.thread) ∷ ([], e.command) ∷ ([], e.first) ∷ [] }))
      (append-nil (event_text e)) (find-Takes [] (Takes-event e h))
