-- ===== src/Customer/Groups.antt =====
-- The groups of transaction types of src/modules/customer/services/customer-transaction.service.ts:
-- resolveTransactionGroup, and what buildTransactionWhere selects by type, group and mode. A group
-- that is not in the table selects nothing less.
use sohcahtoa_api.Prelude.{
  ◌==◌, Bool, true, false, not, ◌&&◌, Option, none, some, List, [], ◌∷◌, any, ◌≡◌, arith,
  if◌then◌else◌,
}
use sohcahtoa_api.Cbn.Rules.{TransactionType, type_code, TransactionMode}
use sohcahtoa_api.Cbn.Documents.{is_tourist}

pub data Group : Type 0 where
  buying selling remittance : Group

-- TRANSACTION_GROUPS
abbrev pub transaction_groups : Group → List TransactionType
transaction_groups Group.buying =
    TransactionType.pta ∷ TransactionType.bta ∷ TransactionType.school_fees
    ∷ TransactionType.medical ∷ TransactionType.professional_body ∷ []
transaction_groups Group.selling = TransactionType.resident_fx ∷ TransactionType.expatriate_fx ∷ []
transaction_groups Group.remittance =
    TransactionType.imto_remittance ∷ TransactionType.cash_remittance ∷ []

abbrev pub includes_type : List TransactionType → TransactionType → Bool
includes_type types type = any (λ t. type_code t == type_code type) types

-- the loop over the entries of the table; OTHER is none
unfoldable pub first_group : List Group → TransactionType → Option Group
first_group [] type = none
first_group (g ∷ gs) type =
    if includes_type (transaction_groups g) type then some g else first_group gs type

abbrev pub tourist_group : Option TransactionMode → Group
tourist_group (some TransactionMode.buy) = Group.buying
tourist_group _ = Group.selling

unfoldable pub resolve_transaction_group : TransactionType → Option TransactionMode → Option Group
unfolding first_group
resolve_transaction_group type mode =
    if is_tourist type
    then some (tourist_group mode)
    else first_group (Group.buying ∷ Group.selling ∷ Group.remittance ∷ []) type

-- the condition on the type that a group gives
unfoldable pub selected_by : Group → TransactionType → Bool
selected_by g type = includes_type (transaction_groups g) type

abbrev pub same_group : Group → Option Group → Bool
same_group Group.buying (some Group.buying) = true
same_group Group.selling (some Group.selling) = true
same_group Group.remittance (some Group.remittance) = true
same_group _ _ = false

-- The filter by a group selects the transactions that resolveTransactionGroup puts into the group,
-- except those of type TOURIST_FX, which no group's filter selects.
pub selected_iff_resolved :
    (g : Group) (type : TransactionType) (mode : Option TransactionMode)
    → selected_by g type
      ≡ not (is_tourist type) && same_group g (resolve_transaction_group type mode)
unfolding selected_by resolve_transaction_group first_group
selected_iff_resolved g type mode = ground arith
