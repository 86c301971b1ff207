-- ===== src/Message/WellFormed.antt =====
-- Well-formed histories, and that an admissible message keeps a history well formed.
use mathlib.Core.List.{map-append, append-nil}
use py_coding_agent.Prelude.{String, List, [], ◌∷◌, ◌++◌, ◌≡◌, refl}
use py_coding_agent.Prelude.Dict.{contains}
use py_coding_agent.Message.{
  Message, system_message, user_message, assistant_message, tool_result, meta_of,
}
use py_coding_agent.Message.Log.{MessageLog}
use py_coding_agent.Message.History.{
  ids_of, calls_of, results_of, call_ids, result_ids, AreDistinct, AreAmong, AreDistinct-append,
  AreAmong-append, AreAmong-append_left, ids_of-append, calls_of-append, results_of-append,
}
use py_coding_agent.Message.Admission.{Agrees, IsAdmissible, FitsKind}

abbrev pub AreInSession : String → List Message → Type 0
AreInSession session_id [] = Unit
AreInSession session_id (m ∷ ms) =
    ((meta_of m).session_id ≡ session_id) × AreInSession session_id ms

-- A well-formed history: one session, no message id and no call id twice, and every result belongs
-- to a call of the history, at most one to each.
pub record IsHistory (session_id : String) (h : List Message) : Type 0 where
  pub sessions : AreInSession session_id h
  pub ids : AreDistinct (ids_of h)
  pub calls : AreDistinct (call_ids (calls_of h))
  pub answers : AreDistinct (result_ids (results_of h))
  pub answered : AreAmong (call_ids (calls_of h)) (result_ids (results_of h))

pub record IsValid (log : MessageLog) : Type 0 where
  pub agrees : Agrees log
  pub history : IsHistory log.session_id log.messages

AreInSession-append :
    (sid : String) (h : List Message) (m : Message)
    → AreInSession sid h
    → (meta_of m).session_id ≡ sid
    → AreInSession sid (h ++ m ∷ [])
AreInSession-append sid [] m s e = (e, tt)
AreInSession-append sid (x ∷ h) m s e = (s.0, AreInSession-append sid h m s.1 e)

AreDistinct-calls :
    (h : List Message) (m : Message)
    → FitsKind h m
    → AreDistinct (call_ids (calls_of h))
    → AreDistinct (call_ids (calls_of (h ++ m ∷ [])))
unfolding calls_of
AreDistinct-calls h (assistant_message m) f d =
    rw (calls_of-append h, append-nil, map-append)
      (AreDistinct-append (call_ids (calls_of h)) (call_ids m.tool_calls) d f.1 f.2)
AreDistinct-calls h (system_message meta content) f d =
    rw (calls_of-append h, append-nil (calls_of h)) d
AreDistinct-calls h (user_message meta content) f d =
    rw (calls_of-append h, append-nil (calls_of h)) d
AreDistinct-calls h (tool_result r) f d = rw (calls_of-append h, append-nil (calls_of h)) d

AreDistinct-results :
    (h : List Message) (m : Message)
    → FitsKind h m
    → AreDistinct (result_ids (results_of h))
    → AreDistinct (result_ids (results_of (h ++ m ∷ [])))
unfolding results_of contains
AreDistinct-results h (tool_result r) f d =
    rw (results_of-append h, map-append)
      (AreDistinct-append (result_ids (results_of h)) (r.tool_call_id ∷ []) d (refl, tt) (f.1, tt))
AreDistinct-results h (system_message meta content) f d =
    rw (results_of-append h, append-nil (results_of h)) d
AreDistinct-results h (user_message meta content) f d =
    rw (results_of-append h, append-nil (results_of h)) d
AreDistinct-results h (assistant_message m) f d =
    rw (results_of-append h, append-nil (results_of h)) d

AreAmong-results :
    (h : List Message) (m : Message)
    → FitsKind h m
    → AreAmong (call_ids (calls_of h)) (result_ids (results_of h))
    → AreAmong (call_ids (calls_of (h ++ m ∷ []))) (result_ids (results_of (h ++ m ∷ [])))
unfolding results_of calls_of
AreAmong-results h (tool_result r) f a =
    rw (results_of-append h, calls_of-append h, append-nil (calls_of h), map-append)
      (AreAmong-append (call_ids (calls_of h)) (result_ids (results_of h)) (r.tool_call_id ∷ []) a
        (f.0, tt))
AreAmong-results h (system_message meta content) f a =
    simp (results_of-append h, calls_of-append h, append-nil) a
AreAmong-results h (user_message meta content) f a =
    simp (results_of-append h, calls_of-append h, append-nil) a
AreAmong-results h (assistant_message m) f a =
    simp (results_of-append h, calls_of-append h, append-nil, map-append)
      (AreAmong-append_left (call_ids (calls_of h)) (call_ids m.tool_calls)
        (result_ids (results_of h)) a)

pub IsHistory-append :
    (sid : String) (h : List Message) (m : Message)
    → IsAdmissible sid h m
    → IsHistory sid h
    → IsHistory sid (h ++ m ∷ [])
unfolding ids_of contains
IsHistory-append sid h m a v = record {
  sessions = AreInSession-append sid h m v.sessions a.same_session;
  ids =
      rw (ids_of-append h)
        (AreDistinct-append (ids_of h) ((meta_of m).id ∷ []) v.ids (refl, tt) (a.new_id, tt));
  calls = AreDistinct-calls h m a.fits v.calls;
  answers = AreDistinct-results h m a.fits v.answers;
  answered = AreAmong-results h m a.fits v.answered;
}
