-- ===== src/Eeprom/Model.antt =====
-- A clock and a chip that behave as documented: the cells are a function, each transfer takes 100
-- microseconds, and a write cycle 5000.
use ventilation_system_proje.Common.{
  ℕ, ◌+◌, ◌-◌, ◌*◌, ◌^◌, ◌≤◌, ◌<◌, ◌≡◌, refl, List, [], ◌∷◌, max, values, arith, length,
}
use ventilation_system_proje.Eeprom.{Sdk}
use ventilation_system_proje.Eeprom.Chip.{Chip}
use ventilation_system_proje.Common.Cells.{overwritten}

pub record Device : Type 0 where
  pub clock : ℕ
  pub cells : ℕ → ℕ
  pub at : ℕ
  pub busy : ℕ

-- What the chip makes of the bytes that are written to it.
abbrev pub deliver : List ℕ → Device → Device
deliver (hi ∷ lo ∷ []) d = record d { at = hi * 2 ^ 8 + lo; clock = d.clock + 100 }
deliver (hi ∷ lo ∷ (x ∷ xs)) d = record {
  clock = d.clock + 100;
  cells = overwritten d.cells (hi * 2 ^ 8 + lo) (x ∷ xs);
  at = d.at;
  busy = d.clock + 5100;
}
deliver _ d = record d { clock = d.clock + 100 }

abbrev pub model_sdk : Sdk
model_sdk = record {
  World = Device;
  now = λ d. d.clock;
  time_diff_us = λ a b. b - a;
  delayed_by_us = λ a b. a + b;
  sleep_until = λ t d. record d { clock = max t d.clock };
  gpio_i2c = λ _ _ d. d;
  i2c_init = λ _ _ d. d;
  i2c_write = λ _ bytes _ d. deliver bytes d;
  i2c_read = λ _ n d. (values d.cells d.at n, record d { clock = d.clock + 100 });
}

pub now-deliver : (bytes : List ℕ) (d : Device) → d.clock ≤ (deliver bytes d).clock
now-deliver [] d = omega arith
now-deliver (a ∷ []) d = omega arith
now-deliver (a ∷ b ∷ []) d = omega arith
now-deliver (a ∷ b ∷ (x ∷ xs)) d = omega arith

pub cells-deliver_bytes :
    (hi lo : ℕ) (bytes : List ℕ) (d : Device) (b : ℕ)
    → 0 < length bytes
    → (deliver (hi ∷ lo ∷ bytes) d).cells b ≡ overwritten d.cells (hi * 2 ^ 8 + lo) bytes b
cells-deliver_bytes hi lo [] d b h = absurd (omega arith)
cells-deliver_bytes hi lo (x ∷ xs) d b h = refl

pub busy-deliver_bytes :
    (hi lo : ℕ) (bytes : List ℕ) (d : Device)
    → d.busy ≤ d.clock
    → (deliver (hi ∷ lo ∷ bytes) d).busy ≤ (deliver (hi ∷ lo ∷ bytes) d).clock + 5000
busy-deliver_bytes hi lo [] d h = omega arith
busy-deliver_bytes hi lo (x ∷ xs) d h = omega arith

abbrev pub model_chip : Chip model_sdk
model_chip = record {
  cell = λ d. d.cells;
  pointer = λ d. d.at;
  busy_until = λ d. d.busy;
  cycle = 5000;
  time_diff_us_lem = λ a b h. refl;
  delayed_by_us_lem = λ a b. refl;
  now-sleep_until = λ t d. omega arith;
  now_le_sleep = λ t d. omega arith;
  cell-sleep_until = λ t d b. refl;
  busy-sleep_until = λ t d. refl;
  pointer-write = λ hi lo nostop d h. refl;
  cell-pointer_write = λ hi lo nostop d b h. refl;
  busy-pointer_write = λ hi lo nostop d h. refl;
  now-write = λ a bytes nostop d. now-deliver bytes d;
  now-read = λ a n d. omega arith;
  cell-data_write = λ hi lo bytes d b h f. cells-deliver_bytes hi lo bytes d b f.0;
  busy-data_write = λ hi lo bytes d h. busy-deliver_bytes hi lo bytes d h;
  read_lem = λ n d h f. refl;
  cell-read = λ n d b h. refl;
  busy-read = λ n d h. refl;
}
