-- ===== src/Store/Laws.antt =====
-- What a read finds after a write of an outbound settlement.
use sohcahtoa_api.Prelude.{ℕ, ◌≡◌, none, some, ◌==◌, ◌≢◌, ◌∙◌, ap, ==_refl, ==_ne}
use sohcahtoa_api.Errors.{err, ok, prisma, record_not_found}
use sohcahtoa_api.Table.{modify_unique}
use sohcahtoa_api.Table.Laws.{find_unique-modify_unique, map_if, map_if-false}
use sohcahtoa_api.Store.{Db}
use sohcahtoa_api.Store.Rows.{OutboundSettlement}
use sohcahtoa_api.Store.Writes.{outbound_by, update_outbound}

abbrev pub set_outbound : ℕ → (OutboundSettlement → OutboundSettlement) → Db → Db
set_outbound id f db = record db { outbound = modify_unique (λ s. s.id) id f db.outbound }

pub update_outbound-some :
    (id : ℕ) (f : OutboundSettlement → OutboundSettlement) (db : Db) (s : OutboundSettlement)
    → outbound_by id db ≡ some s
    → update_outbound id f db ≡ (ok (f s), set_outbound id f db)
unfolding update_outbound
update_outbound-some id f db s e = rw e

pub update_outbound-none :
    (id : ℕ) (f : OutboundSettlement → OutboundSettlement) (db : Db)
    → outbound_by id db ≡ none
    → update_outbound id f db ≡ (err (prisma record_not_found), db)
unfolding update_outbound
update_outbound-none id f db e = rw e

-- Rows other than the one written stay as they were.
pub outbound_by-set_outbound :
    (id j : ℕ) (f : OutboundSettlement → OutboundSettlement) (db : Db)
    → ((s : OutboundSettlement) → (f s).id ≡ s.id)
    → outbound_by j (set_outbound id f db) ≡ map_if (id == j) f (outbound_by j db)
outbound_by-set_outbound id j f db keeps =
    find_unique-modify_unique (λ s. s.id) f keeps id j db.outbound

pub outbound_by-set_outbound_self :
    (id : ℕ) (f : OutboundSettlement → OutboundSettlement) (db : Db)
    → ((s : OutboundSettlement) → (f s).id ≡ s.id)
    → (s : OutboundSettlement) → outbound_by id db ≡ some s
    → outbound_by id (set_outbound id f db) ≡ some (f s)
outbound_by-set_outbound_self id f db keeps s found =
    outbound_by-set_outbound id id f db keeps
    ∙ ap (λ o. map_if (id == id) f o) found
    ∙ ap (λ b. map_if b f (some s)) (==_refl id)

pub outbound_by-set_outbound_ne :
    (id j : ℕ) (f : OutboundSettlement → OutboundSettlement) (db : Db)
    → ((s : OutboundSettlement) → (f s).id ≡ s.id)
    → id ≢ j
    → outbound_by j (set_outbound id f db) ≡ outbound_by j db
outbound_by-set_outbound_ne id j f db keeps ne =
    outbound_by-set_outbound id j f db keeps
    ∙ rw (==_ne id j ne) (map_if-false f (outbound_by j db))
