-- ===== src/Customer/Pickups.antt =====
-- checkTerminalAvailability, getTerminalAvailabilitySlots and getPickupTerminals of
-- src/modules/customer/services/customer-transaction.service.ts. Dates and times of day are numbers
-- that are only compared for equality. The order of the terminals by name is left out.
pub mod Booking
use sohcahtoa_api.Prelude.{
  ℕ, ◌*◌, ◌==◌, ltb, leb, Bool, true, false, ◌&&◌, Option, none, some, is_some, List, [], ◌∷◌, map,
  filter, any, length, Text, text_eq, if◌then◌else◌, ℤ, sub_ℕ,
}
use sohcahtoa_api.Customer.Rows.{PickupStatus, CashPickup, CustomerDb, Branch}
use sohcahtoa_api.Rates.{to_upper_case}

abbrev pub max_pickups_per_slot : ℕ
max_pickups_per_slot = 10

-- status: { in: ['PENDING', 'READY_FOR_PICKUP'] }
abbrev is_waiting : PickupStatus → Bool
is_waiting PickupStatus.closed = false
is_waiting _ = true

abbrev pub is_at : Option ℕ → ℕ → Bool
is_at none k = false
is_at (some a) k = a == k

abbrev pub in_slot : ℕ → ℕ → ℕ → CashPickup → Bool
in_slot terminal date time p =
    is_waiting p.status
    && (is_at p.pickup_location_id terminal
        && (is_at p.scheduled_date date && is_at p.scheduled_time time))

-- cashPickup.count
unfoldable pub booked : ℕ → ℕ → ℕ → CustomerDb → ℕ
booked terminal date time db = length (filter (in_slot terminal date time) db.pickups)

abbrev pub is_serving : Branch → Bool
is_serving b = b.is_active && b.is_approved

unfoldable pub check_terminal_availability : ℕ → ℕ → ℕ → CustomerDb → Bool
check_terminal_availability terminal date time db =
    any (λ b. b.id == terminal && is_serving b) db.branches
    && ltb (booked terminal date time db) max_pickups_per_slot

pub record Slot : Type 0 where
  pub time : ℕ
  pub available : Bool
  pub spots_left : ℤ

-- 9 AM to 5 PM, hourly, in minutes
abbrev pub time_slots : List ℕ
time_slots = 540 ∷ 600 ∷ 660 ∷ 720 ∷ 780 ∷ 840 ∷ 900 ∷ 960 ∷ 1020 ∷ []

abbrev pub slot_at : ℕ → ℕ → CustomerDb → ℕ → Slot
slot_at terminal date db time = record {
  time = time;
  available = ltb (booked terminal date time db) max_pickups_per_slot;
  spots_left = sub_ℕ max_pickups_per_slot (booked terminal date time db);
}

unfoldable pub get_terminal_availability_slots : ℕ → ℕ → CustomerDb → List Slot
get_terminal_availability_slots terminal date db = map (slot_at terminal date db) time_slots

-- contains, in any case of the letters
unfoldable pub starts_with : Text → Text → Bool
starts_with [] text = true
starts_with (c ∷ cs) [] = false
starts_with (c ∷ cs) (d ∷ ds) = c == d && starts_with cs ds

unfoldable pub contains : Text → Text → Bool
contains part [] = starts_with part []
contains part (d ∷ ds) =
    let rest = contains part ds in if starts_with part (d ∷ ds) then true else rest

unfoldable pub is_in : Text → Text → Branch → Bool
is_in state city b =
    text_eq b.state state
    && (is_serving b && contains (to_upper_case city) (to_upper_case b.address))

abbrev pub has_room : Option (ℕ × ℕ) → CustomerDb → Branch → Bool
has_room none db b = true
has_room (some (date, time)) db b = check_terminal_availability b.id date time db

unfoldable pub get_pickup_terminals : Text → Text → Option (ℕ × ℕ) → CustomerDb → List Branch
get_pickup_terminals state city slot db =
    filter (has_room slot db) (filter (is_in state city) db.branches)
