-- ===== src/Storage/Examples.antt =====
-- A database with a session of one message, and one whose last row was cut off.
use py_coding_agent.Prelude.{
  ℕ, suc, ◌≡◌, refl, subst, String, true, Option, none, some, str_eq, if◌then◌else◌, List, [], ◌∷◌,
  ◌++◌, map, arith,
}
use py_coding_agent.Prelude.Dict.{lookup, insert}
use py_coding_agent.Result.{ok, err}
use py_coding_agent.Value.{Value, obj, end, null, field, arr, str, boolean, int, float, opaque}
use py_coding_agent.Storage.Sessions.{
  next_ordinal, count_from, by_version, load_rows, load_summaries, load, message_rows,
  add_summaries, append,
}
use py_coding_agent.Storage.Rows.{Database, SessionRecord, corrupted_message, version_conflict}
use py_coding_agent.Storage.Appending.{load-append, load-append_broken, append-once}

-- a JSON of one value
abbrev parse : String → Option Value
parse text = if str_eq text "{}" then some (obj end) else none

abbrev dumps : Value → Option String
dumps (obj end) = some "{}"
dumps _ = none

abbrev iterate : Value → Option (List Value)
iterate _ = some []

written : (v : Value) (text : String) → dumps v ≡ some text → parse text ≡ some v
written (obj end) text h =
    let same : "{}" ≡ text = ground arith in subst (λ t. parse t ≡ some (obj end)) same refl
written (obj (field k v rest)) text h = absurd (ground arith)
written null text h = absurd (ground arith)
written (float s) text h = absurd (ground arith)
written (str s) text h = absurd (ground arith)
written (opaque s) text h = absurd (ground arith)
written (boolean b) text h = absurd (ground arith)
written (int n) text h = absurd (ground arith)
written (arr items) text h = absurd (ground arith)

abbrev database : List (ℕ × String) → ℕ → Database
database rows version = record {
  sessions =
      (
        "s",
        record { schema = 1; workspace = "w"; version = version; messages = rows; summaries = [] },
      )
      ∷ [];
  run_locks = [];
}

abbrev before : Database
before = database ((0, "{}") ∷ []) 1

abbrev after : Database
after = database ((0, "{}") ∷ (1, "{}") ∷ []) 2

abbrev loaded : SessionRecord
loaded = record {
  session_id = "s";
  workspace = "w";
  schema = 1;
  version = 1;
  messages = obj end ∷ [];
  summaries = [];
  filtered_tail = 0;
}

reads_first : load parse dumps iterate "s" true before ≡ ok loaded
unfolding load load_rows load_summaries by_version lookup
reads_first = refl

accepts_second :
    append parse dumps iterate "s" 1 (record { messages = end ∷ []; summaries = [] }) before
    ≡ ok (2, after)
unfolding append message_rows add_summaries next_ordinal lookup insert
accepts_second = refl

load-append_example :
    (2 ≡ suc 1)
    × (load parse dumps iterate "s" true after
        ≡ ok (record loaded { version = 2; messages = (obj end ∷ []) ++ map obj (end ∷ []) }))
load-append_example =
    load-append parse dumps iterate written "s" true (end ∷ []) before after 2 loaded reads_first
      refl accepts_second

append-once_example :
    append parse dumps iterate "s" 1 (record { messages = end ∷ []; summaries = [] }) after
    ≡ err (version_conflict 1 2)
append-once_example =
    append-once parse dumps iterate "s" 1 (end ∷ [])
      (record { messages = end ∷ []; summaries = [] }) before after 2 accepts_second

-- the process stopped while it wrote the second row
abbrev cut_off : Database
cut_off = database ((0, "{}") ∷ (1, "{") ∷ []) 2

abbrev cut_loaded : SessionRecord
cut_loaded = record loaded { version = 2; filtered_tail = 1 }

reads_before_cut : load parse dumps iterate "s" true cut_off ≡ ok cut_loaded
unfolding load load_rows load_summaries by_version lookup count_from
reads_before_cut = refl

abbrev gone_on : Database
gone_on = database ((0, "{}") ∷ (1, "{") ∷ (2, "{}") ∷ []) 3

accepts_behind_cut :
    append parse dumps iterate "s" 2 (record { messages = end ∷ []; summaries = [] }) cut_off
    ≡ ok (3, gone_on)
unfolding append message_rows add_summaries next_ordinal lookup insert
accepts_behind_cut = refl

load-append_broken_example :
    (n : ℕ) × (load parse dumps iterate "s" true gone_on ≡ err (corrupted_message n))
load-append_broken_example =
    load-append_broken parse dumps iterate "s" end [] cut_off gone_on 3 cut_loaded reads_before_cut
      refl accepts_behind_cut
