-- ===== src/Api/Reads.antt =====
-- What GET /checklists/{checklist_id} and GET /evaluations/{evaluation_id} answer.
