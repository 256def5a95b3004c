-- ===== src/Buffer/Static/Spec.antt =====
-- What the calls of a manager in static mode may answer, in terms of the dynamic mode.
use libatbus.Base.{ℕ, ◌+◌, ◌^◌, ◌≤◌, ◌<◌, ◌≡◌, ◌⊎◌, Bool, true, Option, none, some, length}
use libatbus.Status.{Status, buff_limit}
use libatbus.Buffer.Block.{full_size}
use libatbus.Buffer.Manager
use libatbus.Buffer.Manager.{Manager, Limit, over_limit, charge}

-- The calls of a user. A pop may free a block of which nothing is left.
pub data Op : Type 0 where
  add_back : ℕ → Op
  add_front : ℕ → Op
  drop_back : ℕ → Bool → Op
  drop_front : ℕ → Bool → Op

abbrev pub Reply : Type 0
Reply = Status × Option ℕ

-- A push over the limits, or with other blocks there, or with too little memory, may be refused;
-- else it does what the dynamic mode does where `::malloc` gives some address.
unfoldable pub Push :
    Type 0
    → Manager
    → ℕ
    → (Option ℕ → Manager × Status × Option ℕ)
    → Manager × Status × Option ℕ
    → Type 0
Push why d s pushed r =
    ((r ≡ (d, buff_limit, none)) × ((over_limit d.limit s ≡ true) ⊎ why))
    ⊎ ((start : ℕ) × (r ≡ pushed (some start)))

-- A pop does what the dynamic mode does.
unfoldable pub Pop : Manager × Status → Manager × Status × Option ℕ → Type 0
Pop d r = r ≡ (d.0, d.1, none)

-- What a call may answer on a manager that has `size` bytes.
abbrev pub Answer : ℕ → Manager → Op → Manager × Status × Option ℕ → Type 0
Answer size d (add_back s) =
    Push ((0 < length d.dynamic_buffer) ⊎ (size < full_size s)) d s (Manager.push_back d s)
Answer size d (add_front s) =
    Push ((0 < length d.dynamic_buffer) ⊎ (size ≤ full_size s)) d s (Manager.push_front d s)
Answer size d (drop_back s f) = Pop (Manager.pop_back d s f)
Answer size d (drop_front s f) = Pop (Manager.pop_front d s f)

-- The size of a block in a push fits below 2 ^ 64 with its header.
abbrev pub Fits : Op → Type 0
Fits (add_back s) = s + 32 ≤ 2 ^ 64
Fits (add_front s) = s + 32 ≤ 2 ^ 64
Fits (drop_back s f) = Unit
Fits (drop_front s f) = Unit
