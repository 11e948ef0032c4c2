-- ===== src/Billing/Forwarded.antt =====
-- internal/billing/forwarded_for.go: the rule that refuses forwarded requests for some models, and how
-- often a refusal is reported. The lock of the reports is left out: a call of `due` is one step.
pub mod Normal
pub mod Reports
use cpa_plugin_key_billing_m.Prelude.{
  ℕ, suc, ◌+◌, ◌*◌, Bool, true, false, not, ◌&&◌, ◌||◌, Option, none, some, List, [], ◌∷◌, keep,
  length, is_empty, is_some, ltb, leb, if◌then◌else◌,
}
use cpa_plugin_key_billing_m.Prelude.Text.{
  Text, codes, trim_space, to_lower, contains_text, has_prefix, byte_len, Letters,
}
use cpa_plugin_key_billing_m.Prelude.Map.{Map, get, put}
use cpa_plugin_key_billing_m.Billing.Errors.{Result, ok, err, invalid, ◌>>=◌}
use cpa_plugin_key_billing_m.Billing.State.{Time, second, State, ForwardedForBlock}
use cpa_plugin_key_billing_m.Billing.Changes.{no_changes}
use cpa_plugin_key_billing_m.Billing.Store.{Store, Edit, edit_configuration}

abbrev pub default_message : Text
default_message = codes "当前禁止模型混用，请联系相关管理员了解详情。"

abbrev pub max_keywords : ℕ
max_keywords = 100

abbrev pub max_keyword_bytes : ℕ
max_keyword_bytes = 512

abbrev pub max_message_bytes : ℕ
max_message_bytes = 1024

-- ForwardedForMatch
pub record Match : Type 0 where
  pub model : Text
  pub keyword : Text
  pub message : Text

-- strings.Contains
unfoldable pub contains_sub : Text → Text → Bool
contains_sub [] part = is_empty part
contains_sub (c ∷ s) part = has_prefix (c ∷ s) part || contains_sub s part

abbrev pub shown_message : Text → Text
shown_message raw =
    let message = trim_space raw in if is_empty message then default_message else message

module _ ⦃l : Letters⦄ where
  -- the loop of NormalizeForwardedForBlock; `seen` and `count` are of the keywords kept
  unfoldable pub normalize_keywords : List Text → ℕ → List Text → Result (List Text)
  normalize_keywords seen count [] = ok []
  normalize_keywords seen count (raw ∷ rest) =
      let keyword = trim_space raw in
      let folded = to_lower keyword in
      let skipped = normalize_keywords seen count rest in
      let kept = normalize_keywords (folded ∷ seen) (suc count) rest in
      if is_empty keyword
      then skipped
      else if ltb max_keyword_bytes (byte_len keyword)
      then err (invalid "模型关键词不能超过 %d 字节")
      else if contains_text seen folded
      then skipped
      else if ltb max_keywords (suc count)
      then err (invalid "模型关键词不能超过 %d 个")
      else kept >>= λ keywords. ok (keyword ∷ keywords)

  -- what NormalizeForwardedForBlock does with the keywords kept
  unfoldable pub normalize_message : ForwardedForBlock → List Text → Result ForwardedForBlock
  normalize_message b keywords =
      if b.enabled && is_empty keywords
      then err (invalid "启用 X-Forwarded-For 拦截时至少填写一个模型关键词")
      else if ltb max_message_bytes (byte_len (trim_space b.message))
      then err (invalid "提示语不能超过 %d 字节")
      else ok (record {
        enabled = b.enabled;
        model_keywords = keywords;
        message = shown_message b.message;
      })

  -- NormalizeForwardedForBlock
  unfoldable pub normalize_block : ForwardedForBlock → Result ForwardedForBlock
  normalize_block b = normalize_keywords [] 0 b.model_keywords >>= normalize_message b

  -- the loop over the keywords, for a model that is not empty
  unfoldable pub match_keyword : ForwardedForBlock → Text → List Text → Option Match
  match_keyword b model [] = none
  match_keyword b model (keyword ∷ keywords) =
      let rest = match_keyword b model keywords in
      if is_empty keyword || not (contains_sub (to_lower model) (to_lower keyword))
      then rest
      else some (record { model = model; keyword = keyword; message = shown_message b.message })

  abbrev pub or_else : Option Match → Option Match → Option Match
  or_else none next = next
  or_else (some m) next = some m

  -- the loop over the models
  unfoldable pub match_models : ForwardedForBlock → List Text → Option Match
  match_models b [] = none
  match_models b (raw ∷ models) =
      let model = trim_space raw in
      let rest = match_models b models in
      if is_empty model then rest else or_else (match_keyword b model b.model_keywords) rest

  -- Store.MatchForwardedForBlock
  unfoldable pub match_block : State → List Text → Option Match
  match_block st models =
      let b = st.forwarded_for_block in
      if not b.enabled || is_empty b.model_keywords then none else match_models b models

-- forwardedForReports: when each key was last reported
abbrev pub Reports : Type 0
Reports = Map Time

abbrev pub report_interval : ℕ
report_interval = 600 * second

abbrev pub max_reports : ℕ
max_reports = 4096

abbrev pub expired : Time → Time → Bool
expired now at = leb (at + report_interval) now || leb (now + report_interval) at

abbrev recent : Time → Option Time → Bool
recent now none = false
recent now (some at) = not (expired now at)

-- forwardedForReports.due, at the reading of the clock
unfoldable pub due : Reports → Text → Time → Bool × Reports
due last key now =
    let pruned = keep (λ e. not (expired now e.1)) last in
    if recent now (get key last)
    then (false, last)
    else if is_some (get key last) || ltb (length last) max_reports
    then (true, put key now last)
    else if leb max_reports (length pruned)
    then (false, pruned)
    else (true, put key now pruned)

set_block_edit : ForwardedForBlock → Edit ForwardedForBlock
set_block_edit b st =
    ok (b, record st { forwarded_for_block = b }, record no_changes { forwarded_for_block = true })

-- a save that succeeds starts the reports over
reset_reports :
    Reports → Store × Result ForwardedForBlock → (Store × Reports) × Result ForwardedForBlock
reset_reports last (s, ok b) = ((s, []), ok b)
reset_reports last (s, err e) = ((s, last), err e)

set_normalized :
    Store → Reports → Result ForwardedForBlock → (Store × Reports) × Result ForwardedForBlock
unfolding reset_reports set_block_edit
set_normalized s last (err e) = ((s, last), err e)
set_normalized s last (ok b) = reset_reports last (edit_configuration s (set_block_edit b))

module _ ⦃l : Letters⦄ where
  -- Store.SetForwardedForBlock, with the reports of the store
  unfoldable pub set_forwarded_for_block :
      Store → Reports → ForwardedForBlock → (Store × Reports) × Result ForwardedForBlock
  unfolding set_normalized
  set_forwarded_for_block s last b = set_normalized s last (normalize_block b)
