-- ===== src/Alarm/Content.antt =====
-- modules/alarm/cron/builder.go and g.Link: the texts of the messages. `none` is the panic of a nil
-- pointer; `readable_float` and `formatted_time` are the functions of common/utils.
use falcon_plus_learn.Base.{Text, codes, Option, some, List, [], ◌∷◌, ◌++◌, if◌then◌else◌, ◌>>=◌}
use falcon_plus_learn.Base.Int.{ℤ, pos, eqb_ℤ}
use falcon_plus_learn.Base.Decimal.{fmt_int}
use falcon_plus_learn.Common.Model.{
  Event, priority, note, func, metric, operator, right_value, max_step, tpl_id, expression_id,
}
use falcon_plus_learn.Common.Tags.{sorted_tags}

pub record Formats (V : Type 0) : Type 0 where
  pub readable_float : V → Text
  pub formatted_time : ℤ → Text
  pub dashboard : Text

-- Texts one after the other.
abbrev pub concat : List Text → Text
concat [] = []
concat (t ∷ ts) = t ++ concat ts

module _ {V : Type 0} (formats : Formats V) where
  -- The text of an SMS, and of an IM.
  unfoldable pub build_common_sms_content : Event V → Option Text
  unfolding priority note func metric operator right_value sorted_tags fmt_int
  build_common_sms_content e = do
    p ← priority e
    n ← note e
    f ← func e
    m ← metric e
    o ← operator e
    r ← right_value e
    some (
        concat (
          codes "[P"
          ∷ fmt_int p
          ∷ codes "]["
          ∷ e.status
          ∷ codes "]["
          ∷ e.endpoint
          ∷ codes "][]["
          ∷ n
          ∷ codes " "
          ∷ f
          ∷ codes " "
          ∷ m
          ∷ codes " "
          ∷ sorted_tags e.pushed_tags
          ∷ codes " "
          ∷ formats.readable_float e.left_value
          ∷ o
          ∷ formats.readable_float r
          ∷ codes "][O"
          ∷ fmt_int e.current_step
          ∷ codes " "
          ∷ formats.formatted_time e.event_time
          ∷ codes "]"
          ∷ []))

  unfoldable pub link : Event V → Option Text
  unfolding tpl_id expression_id fmt_int
  link e = do
    t ← tpl_id e
    some (
        if eqb_ℤ t (pos 0)
        then (if eqb_ℤ (expression_id e) (pos 0)
            then []
            else formats.dashboard
              ++ (codes "/portal/expression/view/" ++ fmt_int (expression_id e)))
        else formats.dashboard ++ (codes "/portal/template/view/" ++ fmt_int t))

  unfoldable pub build_common_mail_content : Event V → Option Text
  unfolding link priority note func metric operator right_value max_step sorted_tags fmt_int
  build_common_mail_content e = do
    l ← link e
    p ← priority e
    m ← metric e
    f ← func e
    o ← operator e
    r ← right_value e
    n ← note e
    x ← max_step e
    let crlf = 13 ∷ 10 ∷ []
    some (
        concat (
          e.status
          ∷ crlf
          ∷ codes "P"
          ∷ fmt_int p
          ∷ crlf
          ∷ codes "Endpoint:"
          ∷ e.endpoint
          ∷ crlf
          ∷ codes "Metric:"
          ∷ m
          ∷ crlf
          ∷ codes "Tags:"
          ∷ sorted_tags e.pushed_tags
          ∷ crlf
          ∷ f
          ∷ codes ": "
          ∷ formats.readable_float e.left_value
          ∷ o
          ∷ formats.readable_float r
          ∷ crlf
          ∷ codes "Note:"
          ∷ n
          ∷ crlf
          ∷ codes "Max:"
          ∷ fmt_int x
          ∷ codes ", Current:"
          ∷ fmt_int e.current_step
          ∷ crlf
          ∷ codes "Timestamp:"
          ∷ formats.formatted_time e.event_time
          ∷ crlf
          ∷ l
          ∷ crlf
          ∷ []))
