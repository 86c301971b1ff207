-- ===== src/Context/Truncation.antt =====
-- src/coding_agent/context/truncation.py: a long output of a tool is shown in part, and kept in a file.
use Prim.Native.Char.{Char, code}
use py_coding_agent.Prelude.{
  ℕ, ◌+◌, ◌-◌, String, Bool, true, ◌||◌, Option, none, some, leb, ltb, ◌==◌, str_eq, if◌then◌else◌,
}
use py_coding_agent.Prelude.Text.{join, is_empty, text_length, text_take, text_last, replace_all}
use py_coding_agent.Result.{Result, ok, err}
use py_coding_agent.Provider.{ToolOutcome}

pub data TruncationStrategy : Type 0 where
  head tail head_tail : TruncationStrategy

-- `int(budget * head_ratio)` is an argument of the operations, since the ratio is a float
pub record DisplayedOutput : Type 0 where
  pub text : String
  pub omitted_count : ℕ
  pub artifact_ref : Option String
  pub strategy : TruncationStrategy

abbrev pub marker_reserve : ℕ
marker_reserve = 200

-- what the policy's checks raise
pub data PolicyError : Type 0 where
  max_chars_too_small bad_head_ratio : PolicyError

-- `TruncationPolicy.__post_init__`; `ratio_ok` is `0.0 < head_ratio < 1.0`
unfoldable pub check_policy : ℕ → Bool → Result PolicyError ℕ
check_policy max_chars ratio_ok =
    if leb max_chars marker_reserve
    then err max_chars_too_small
    else if ratio_ok
    then ok max_chars
    else err bad_head_ratio

unfoldable pub choose_strategy : String → Option String → TruncationStrategy
choose_strategy kind (some error_kind) = TruncationStrategy.tail
choose_strategy kind none =
    if str_eq kind "read" then TruncationStrategy.head else TruncationStrategy.head_tail

unfoldable pub at_least_one : ℕ → ℕ
at_least_one n = if ltb n 1 then 1 else n

abbrev ref_text : Option String → String
ref_text none = "not stored (storage unavailable)"
ref_text (some ref) = ref

-- the parts that are kept, with the marker between them: the text, and how much of the output it keeps
unfoldable pub cut_output : (ℕ → ℕ) → TruncationStrategy → ℕ → String → String → String × ℕ
cut_output head_share TruncationStrategy.head budget mark output =
    let kept = text_take budget output in (join kept (join "\n" mark), text_length kept)
cut_output head_share TruncationStrategy.tail budget mark output =
    let kept = text_last budget output in (join mark (join "\n" kept), text_length kept)
cut_output head_share TruncationStrategy.head_tail budget mark output =
    let head_budget = at_least_one (head_share budget) in
    let first = text_take head_budget output in
    let last = text_last (at_least_one (budget - head_budget)) output in
    (join first (join "\n" (join mark (join "\n" last))), text_length first + text_length last)

module _ (show : ℕ → String) where
  unfoldable pub marker : ℕ → Option String → String
  marker omitted ref =
      join "[... "
        (join (show omitted) (join " characters omitted; full output: " (join (ref_text ref) "]")))

  -- the output that is longer than `max_chars`, given the reference to its copy
  unfoldable pub shortened_output :
      (ℕ → ℕ) → ℕ → TruncationStrategy → Option String → String → DisplayedOutput
  shortened_output head_share max_chars strategy ref output =
      let budget = at_least_one (max_chars - marker_reserve) in
      let mark = marker (text_length output - budget) ref in
      let (text, kept) = cut_output head_share strategy budget mark output in
      let omitted = text_length output - kept in
      record {
        text = replace_all mark (marker omitted ref) text;
        omitted_count = omitted;
        artifact_ref = ref;
        strategy = strategy;
      }

  -- `write` puts a text under a name below the artifact directory, in the state `W` of the file system,
  -- and says whether it could; `new_name` is the uuid's part of the name, `is_alnum` is `str.isalnum`
  module _ {W : Type 0} (is_alnum : Char → Bool) (write : String → String → W → Bool × W) where
    -- `ch.isalnum() or ch in "-_"`
    unfoldable pub allowed : Char → Bool
    allowed c = is_alnum c || code c == 45 || code c == 95

    abbrev allowed_only : String → String
    allowed_only String.[] = String.[]
    allowed_only (String.◌∷◌ c s) =
        let rest = allowed_only s in if allowed c then String.◌∷◌ c rest else rest

    -- `_safe_kind`
    unfoldable pub safe_kind : String → String
    safe_kind kind =
        let cleaned = allowed_only kind in if is_empty cleaned then "output" else cleaned

    -- the text of the copy, which has its own limit
    abbrev copy_of : ℕ → String → String
    copy_of max_content content =
        if ltb max_content (text_length content)
        then join (text_take max_content content)
            (join "\n[... artifact copy truncated at " (join (show max_content) " characters]"))
        else content

    -- `store_full_output`: the reference to the copy, if it could be written
    unfoldable pub store_full_output : ℕ → String → String → String → W → Option String × W
    store_full_output max_content new_name kind content w =
        let file_name = join (safe_kind kind) (join "-" (join new_name ".txt")) in
        let (written, w') = write file_name (copy_of max_content content) w in
        (if written then some (join ".coding-agent/artifacts/" file_name) else none, w')

    -- `truncate`; without a workspace, nothing is stored
    unfoldable pub truncate :
        (ℕ → ℕ) → ℕ → ℕ → Bool → String → String → String → Option String → W → DisplayedOutput × W
    truncate head_share max_chars max_content has_workspace new_name kind output error_kind w =
        let strategy = choose_strategy kind error_kind in
        let (stored, w') = store_full_output max_content new_name kind output w in
        if leb (text_length output) max_chars
        then (
          record { text = output; omitted_count = 0; artifact_ref = none; strategy = strategy },
          w,
        )
        else if has_workspace
        then (shortened_output head_share max_chars strategy stored output, w')
        else (shortened_output head_share max_chars strategy none output, w)

    abbrev or_ref : Option String → Option String → Option String
    or_ref (some ref) other = if is_empty ref then other else some ref
    or_ref none other = other

    -- `process`, on the outcome of a call of the tool `kind`
    unfoldable pub process : (ℕ → ℕ) → ℕ → ℕ → String → String → ToolOutcome → W → ToolOutcome × W
    process head_share max_chars max_content new_name kind outcome w =
        let (shown, w') =
          truncate head_share max_chars max_content true new_name kind outcome.content
            outcome.error_kind w in
        (
          record outcome {
            content = shown.text;
            artifact_ref = or_ref shown.artifact_ref outcome.artifact_ref;
          },
          w',
        )
