-- ===== src/Admin/Decisions.antt =====
-- Decisions on a document go through its transaction.
use sohcahtoa_api.Prelude.{ℕ, ◌≡◌, Option, none, String}
use sohcahtoa_api.Errors.{err}
use sohcahtoa_api.Admin.{
  AdminDb, document_in, document_not_found, approve_document, reject_document, request_more_info,
}

-- A document that does not belong to the transaction that is named cannot be approved, rejected or
-- sent back through it: each of the three fails and writes nothing.
pub foreign_document :
    (now id document admin : ℕ) (notes : Option String) (comment : String) (db : AdminDb)
    → document_in id document db ≡ none
    → (approve_document now id document admin notes db ≡ (err document_not_found, db))
      × (reject_document now id document admin notes db ≡ (err document_not_found, db))
      × (request_more_info id document admin comment db ≡ (err document_not_found, db))
unfolding approve_document reject_document request_more_info
foreign_document now id document admin notes comment db missing =
    (rw missing, rw missing, rw missing)
