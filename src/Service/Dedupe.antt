-- ===== src/Service/Dedupe.antt =====
-- dedupeByID of api/internal/service/service.go.
pub mod Distinct
use sentilyzer.Prelude.{ℕ, Bool, true, false, List, [], ◌∷◌, ◌++◌, Str, if◌then◌else◌}
use sentilyzer.Prelude.Text.{codes}
use sentilyzer.Domain.{SourcedDocument}
use sentilyzer.Service.Select.{has}

unfoldable pub doc_key : SourcedDocument → Str
doc_key d = d.platform ++ (codes "|" ++ d.document.id)

-- the loop, with the keys seen so far
unfoldable pub dedupe_loop : List Str → List SourcedDocument → List SourcedDocument
unfolding doc_key has
dedupe_loop seen [] = []
dedupe_loop seen (d ∷ docs) =
    let skip = dedupe_loop seen docs in
    let keep = d ∷ dedupe_loop (doc_key d ∷ seen) docs in
    if has (doc_key d) seen then skip else keep

unfoldable pub dedupe_by_id : List SourcedDocument → List SourcedDocument
unfolding dedupe_loop
dedupe_by_id [] = []
dedupe_by_id (d ∷ []) = d ∷ []
dedupe_by_id (d ∷ e ∷ docs) = dedupe_loop [] (d ∷ e ∷ docs)
