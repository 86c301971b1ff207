-- ===== src/Message/History.antt =====
-- What a log promises, said of its messages alone: the sequence of messages is the abstract state,
-- and the sets and dictionaries of `MessageLog` are indexes of it.
use mathlib.Core.List.{append_assoc}
use py_coding_agent.Prelude.{
  String, true, false, Option, none, some, ◌||◌, str_eq, eq_iff, if◌then◌else◌, is_some, or_else,
  List, [], ◌∷◌, ◌++◌, map, ◌≡◌, refl, sym, arith,
}
use py_coding_agent.Prelude.Dict.{contains}
use py_coding_agent.Message.{Message, assistant_message, tool_result, ToolCall, ToolResult, meta_of}

-- the calls and the results that one message brings
unfoldable pub calls_in : Message → List ToolCall
calls_in (assistant_message m) = m.tool_calls
calls_in _ = []

unfoldable pub results_in : Message → List ToolResult
results_in (tool_result r) = r ∷ []
results_in _ = []

unfoldable pub ids_of : List Message → List String
unfolding meta_of
ids_of [] = []
ids_of (m ∷ ms) = (meta_of m).id ∷ ids_of ms

unfoldable pub calls_of : List Message → List ToolCall
unfolding calls_in
calls_of [] = []
calls_of (m ∷ ms) = calls_in m ++ calls_of ms

unfoldable pub results_of : List Message → List ToolResult
unfolding results_in
results_of [] = []
results_of (m ∷ ms) = results_in m ++ results_of ms

abbrev pub call_ids : List ToolCall → List String
call_ids = map (λ c. c.id)

abbrev pub result_ids : List ToolResult → List String
result_ids = map (λ r. r.tool_call_id)

-- the first call, or result, with the id
unfoldable pub find_call : String → List ToolCall → Option ToolCall
find_call k [] = none
find_call k (c ∷ cs) = if str_eq c.id k then some c else find_call k cs

unfoldable pub find_answer : String → List ToolResult → Option ToolResult
find_answer k [] = none
find_answer k (r ∷ rs) = if str_eq r.tool_call_id k then some r else find_answer k rs

-- no text occurs twice
abbrev pub AreDistinct : List String → Type 0
AreDistinct [] = Unit
AreDistinct (x ∷ xs) = (contains x xs ≡ false) × AreDistinct xs

-- none of the texts `ys` occurs in `xs`
abbrev pub AreFresh : List String → List String → Type 0
AreFresh xs [] = Unit
AreFresh xs (y ∷ ys) = (contains y xs ≡ false) × AreFresh xs ys

-- each of the texts `ys` occurs in `xs`
abbrev pub AreAmong : List String → List String → Type 0
AreAmong xs [] = Unit
AreAmong xs (y ∷ ys) = (contains y xs ≡ true) × AreAmong xs ys

pub contains-append :
    (k : String) (xs ys : List String) → contains k (xs ++ ys) ≡ (contains k xs || contains k ys)
unfolding contains
contains-append k [] ys = refl
contains-append k (x ∷ xs) ys = ground (arith, contains-append k xs ys)

pub AreFresh-nil : (ys : List String) → AreFresh [] ys
unfolding contains
AreFresh-nil [] = tt
AreFresh-nil (y ∷ ys) = (refl, AreFresh-nil ys)

pub AreFresh-cons :
    (x : String) (xs ys : List String)
    → AreFresh (x ∷ xs) ys
    → (contains x ys ≡ false) × AreFresh xs ys
unfolding contains
AreFresh-cons x xs [] f = (refl, tt)
AreFresh-cons x xs (y ∷ ys) f =
    let (g, h) = AreFresh-cons x xs ys f.1 in
    (ground (arith, eq_iff x y, eq_iff y x), (ground arith, h))

pub AreFresh-cons_of :
    (x : String) (xs ys : List String)
    → contains x ys ≡ false
    → AreFresh xs ys
    → AreFresh (x ∷ xs) ys
unfolding contains
AreFresh-cons_of x xs [] g h = tt
AreFresh-cons_of x xs (y ∷ ys) g h =
    (ground (arith, eq_iff x y, eq_iff y x), AreFresh-cons_of x xs ys (ground arith) h.1)

pub AreDistinct-append :
    (xs ys : List String)
    → AreDistinct xs
    → AreDistinct ys
    → AreFresh xs ys
    → AreDistinct (xs ++ ys)
AreDistinct-append [] ys d e f = e
AreDistinct-append (x ∷ xs) ys d e f =
    let (g, h) = AreFresh-cons x xs ys f in
    (rw contains-append (ground arith), AreDistinct-append xs ys d.1 e h)

pub AreAmong-append_left : (xs ys zs : List String) → AreAmong xs zs → AreAmong (xs ++ ys) zs
AreAmong-append_left xs ys [] h = tt
AreAmong-append_left xs ys (z ∷ zs) h =
    (rw contains-append (ground arith), AreAmong-append_left xs ys zs h.1)

pub AreAmong-append :
    (xs ys zs : List String) → AreAmong xs ys → AreAmong xs zs → AreAmong xs (ys ++ zs)
AreAmong-append xs [] zs h k = k
AreAmong-append xs (y ∷ ys) zs h k = (h.0, AreAmong-append xs ys zs h.1 k)

-- the parts of two histories, one after the other
pub ids_of-append : (ms ns : List Message) → ids_of (ms ++ ns) ≡ ids_of ms ++ ids_of ns
unfolding ids_of
ids_of-append [] ns = refl
ids_of-append (m ∷ ms) ns = rw (ids_of-append ms ns)

pub calls_of-append : (ms ns : List Message) → calls_of (ms ++ ns) ≡ calls_of ms ++ calls_of ns
unfolding calls_of
calls_of-append [] ns = refl
calls_of-append (m ∷ ms) ns = rw (calls_of-append ms ns) (sym (append_assoc (calls_in m) _ _))

pub results_of-append :
    (ms ns : List Message) → results_of (ms ++ ns) ≡ results_of ms ++ results_of ns
unfolding results_of
results_of-append [] ns = refl
results_of-append (m ∷ ms) ns = rw (results_of-append ms ns) (sym (append_assoc (results_in m) _ _))

pub find_call-append :
    (k : String) (cs ds : List ToolCall)
    → find_call k (cs ++ ds) ≡ or_else (find_call k cs) (find_call k ds)
unfolding find_call
find_call-append k [] ds = refl
find_call-append k (c ∷ cs) ds = ground (arith, find_call-append k cs ds)

pub find_answer-append :
    (k : String) (cs ds : List ToolResult)
    → find_answer k (cs ++ ds) ≡ or_else (find_answer k cs) (find_answer k ds)
unfolding find_answer
find_answer-append k [] ds = refl
find_answer-append k (c ∷ cs) ds = ground (arith, find_answer-append k cs ds)

pub is_some-find_call :
    (k : String) (cs : List ToolCall) → is_some (find_call k cs) ≡ contains k (call_ids cs)
unfolding find_call contains
is_some-find_call k [] = refl
is_some-find_call k (c ∷ cs) = ground (arith, is_some-find_call k cs)

pub is_some-find_answer :
    (k : String) (rs : List ToolResult) → is_some (find_answer k rs) ≡ contains k (result_ids rs)
unfolding find_answer contains
is_some-find_answer k [] = refl
is_some-find_answer k (c ∷ cs) = ground (arith, is_some-find_answer k cs)
