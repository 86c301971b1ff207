-- ===== src/Context/Stored.antt =====
-- The stored form of a summary.
use py_coding_agent.Prelude.{◌≡◌, refl, ap, String, some, List, [], ◌∷◌}
use py_coding_agent.Prelude.Int.{pos}
use py_coding_agent.Value.{Value, get_field}
use py_coding_agent.Context.Summary.{StructuredSummary}
use py_coding_agent.Context.Rendering.{summary_payload, summary_from_payload, texts, field_texts}
use py_coding_agent.Context.Compactor.{
  CompactionRecord, summary_record_of, compaction_record_from_store,
}

module _ (show : Value → String) where
  field_texts-texts : (l : List String) → field_texts show (some (texts l)) ≡ l
  field_texts-texts [] = refl
  field_texts-texts (x ∷ xs) = ap (λ l. x ∷ l) (field_texts-texts xs)

  summary_from_payload-summary_payload :
      (s : StructuredSummary) → summary_from_payload show (summary_payload s) ≡ s
  unfolding summary_from_payload summary_payload get_field
  summary_from_payload-summary_payload s = rw (field_texts-texts s.files_read) (
      rw (field_texts-texts s.files_modified) (
        rw (field_texts-texts s.commands_executed) (
          rw (field_texts-texts s.errors)
            (rw (field_texts-texts s.source_ids) (rw (field_texts-texts s.unknown_fields) refl)))))

  -- A compaction record that is stored and read back keeps its summary, its boundary and its version; the
  -- preserved ids come back empty and the token counts 0, since these are not stored.
  pub compaction_record_from_store-summary_record_of :
      (r : CompactionRecord)
      → compaction_record_from_store show (summary_record_of r)
        ≡ record r { preserved_ids = []; token_before = pos 0; token_after = pos 0 }
  unfolding compaction_record_from_store summary_record_of
  compaction_record_from_store-summary_record_of r =
      rw (summary_from_payload-summary_payload r.summary) refl
