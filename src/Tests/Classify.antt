-- ===== src/Tests/Classify.antt =====
-- classify.go on concrete statements.
use go_txnproof.Prelude.{◌≡◌, ◌↔◌, true, Bytes, codes, one_of, arith}
use go_txnproof.Classify.{
  strip_loop, strip_leading, leading_token, ascii_upper_bytes, cte_write_words,
  contains_write_token, keyword_kind, default_classifier,
}
use go_txnproof.Classify.Strip.{IsBare, strip_loop-strip_leading}
use go_txnproof.Classify.Comments.{Skips}
use go_txnproof.Classify.Skips.{strip_leading_exact}
use go_txnproof.Classify.Tokens.{HasToken, contains_write_token_exact}
use go_txnproof.Classify.Letters.{default_classifier_any_case}
use go_txnproof.Classify.Buffer.{default_classifier_whole_token}

abbrev hinted : Bytes
hinted = codes "  /* hint */ insert into t values (1)"

abbrev cte : Bytes
cte = codes "with x as (delete from t returning id) select * from x"

strip_leading_exact_example :
    (strip_leading hinted ≡ codes "insert into t values (1)")
    ↔ (Skips hinted (codes "insert into t values (1)") × IsBare (codes "insert into t values (1)"))
strip_leading_exact_example = strip_leading_exact hinted (codes "insert into t values (1)")

contains_write_token_exact_example :
    (contains_write_token cte ≡ true)
    ↔ ((t : Bytes) × HasToken t cte × (one_of cte_write_words (ascii_upper_bytes t) ≡ true))
contains_write_token_exact_example = contains_write_token_exact cte

default_classifier_any_case_example :
    default_classifier (ascii_upper_bytes cte) ≡ default_classifier cte
default_classifier_any_case_example = default_classifier_any_case cte

default_classifier_whole_token_example :
    default_classifier cte ≡ keyword_kind cte (ascii_upper_bytes (leading_token cte))
default_classifier_whole_token_example = default_classifier_whole_token cte

strip_loop-strip_leading_example :
    (strip_loop 40 (codes " -- a\n/* b */ SELECT") ≡ strip_leading (codes " -- a\n/* b */ SELECT"))
    × IsBare (strip_loop 40 (codes " -- a\n/* b */ SELECT"))
strip_loop-strip_leading_example =
    strip_loop-strip_leading 40 (codes " -- a\n/* b */ SELECT") (omega arith)
