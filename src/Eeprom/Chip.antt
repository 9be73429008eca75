-- ===== src/Eeprom/Chip.antt =====
-- The documented behaviour of the EEPROM chip and of the SDK calls, and that the driver turns
-- them into a storage: it never talks to the chip during a write cycle.
use ventilation_system_proje.Common.{
  ℕ, ◌+◌, ◌-◌, ◌*◌, ◌^◌, ◌≤◌, ◌<◌, ◌≡◌, refl, sym, ap, ◌∙◌, List, [], ◌∷◌, Bool, true, false, some,
  u8, ◌>>>◌, ◌==◌, length, get_or, take, read_n-take, values, if◌then◌else◌, Bool-cases, inl, inr,
  arith, subst, ap₂, ltb→lt, ==_iff,
}
use mathlib.Core.Path.{fun_ext}
use ventilation_system_proje.Eeprom.{
  Sdk, Driver, write_cycle_check, write_cycle_block, write_address, send, write_byte, write_page,
  read_byte, read_page,
}
use ventilation_system_proje.Common.Cells.{overwritten}
use ventilation_system_proje.Eeprom.Storage.{Storage, Fits, Within}

-- A chip of 2 ^ 15 cells at I2C address 0x50. `busy_until` is the end of the write cycle that it
-- is in: before that it must not be addressed. `cycle` is the longest write cycle.
pub record Chip (sdk : Sdk) : Type 0 where
  pub cell : sdk.World → ℕ → ℕ
  pub pointer : sdk.World → ℕ
  pub busy_until : sdk.World → ℕ
  pub cycle : ℕ
  -- The clock.
  pub time_diff_us_lem : (a b : ℕ) → a ≤ b → sdk.time_diff_us a b ≡ b - a
  pub delayed_by_us_lem : (a b : ℕ) → sdk.delayed_by_us a b ≡ a + b
  pub now-sleep_until : (t : ℕ) (w : sdk.World) → t ≤ sdk.now (sdk.sleep_until t w)
  pub now_le_sleep : (t : ℕ) (w : sdk.World) → sdk.now w ≤ sdk.now (sdk.sleep_until t w)
  pub cell-sleep_until : (t : ℕ) (w : sdk.World) (b : ℕ) → cell (sdk.sleep_until t w) b ≡ cell w b
  pub busy-sleep_until : (t : ℕ) (w : sdk.World) → busy_until (sdk.sleep_until t w) ≡ busy_until w
  -- Two bytes set the pointer.
  pub pointer-write :
      (hi lo : ℕ) (nostop : Bool) (w : sdk.World)
      → busy_until w ≤ sdk.now w
      → pointer (sdk.i2c_write 0x50 (hi ∷ lo ∷ []) nostop w) ≡ hi * 2 ^ 8 + lo
  pub cell-pointer_write :
      (hi lo : ℕ) (nostop : Bool) (w : sdk.World) (b : ℕ)
      → busy_until w ≤ sdk.now w
      → cell (sdk.i2c_write 0x50 (hi ∷ lo ∷ []) nostop w) b ≡ cell w b
  pub busy-pointer_write :
      (hi lo : ℕ) (nostop : Bool) (w : sdk.World)
      → busy_until w ≤ sdk.now w
      → busy_until (sdk.i2c_write 0x50 (hi ∷ lo ∷ []) nostop w) ≡ busy_until w
  -- Time passes in a transfer.
  pub now-write :
      (d : ℕ) (bytes : List ℕ) (nostop : Bool) (w : sdk.World)
      → sdk.now w ≤ sdk.now (sdk.i2c_write d bytes nostop w)
  pub now-read : (d n : ℕ) (w : sdk.World) → sdk.now w ≤ sdk.now (sdk.i2c_read d n w).1
  -- More bytes are stored, and start a write cycle.
  pub cell-data_write :
      (hi lo : ℕ) (bytes : List ℕ) (w : sdk.World) (b : ℕ)
      → busy_until w ≤ sdk.now w
      → Fits (hi * 2 ^ 8 + lo) (length bytes)
      → cell (sdk.i2c_write 0x50 (hi ∷ lo ∷ bytes) false w) b
        ≡ overwritten (cell w) (hi * 2 ^ 8 + lo) bytes b
  pub busy-data_write :
      (hi lo : ℕ) (bytes : List ℕ) (w : sdk.World)
      → busy_until w ≤ sdk.now w
      → busy_until (sdk.i2c_write 0x50 (hi ∷ lo ∷ bytes) false w)
        ≤ sdk.now (sdk.i2c_write 0x50 (hi ∷ lo ∷ bytes) false w) + cycle
  -- A read goes on from the pointer.
  pub read_lem :
      (n : ℕ) (w : sdk.World)
      → busy_until w ≤ sdk.now w
      → pointer w + n ≤ 2 ^ 15
      → (sdk.i2c_read 0x50 n w).0 ≡ values (cell w) (pointer w) n
  pub cell-read :
      (n : ℕ) (w : sdk.World) (b : ℕ)
      → busy_until w ≤ sdk.now w
      → cell (sdk.i2c_read 0x50 n w).1 b ≡ cell w b
  pub busy-read :
      (n : ℕ) (w : sdk.World)
      → busy_until w ≤ sdk.now w
      → busy_until (sdk.i2c_read 0x50 n w).1 ≡ busy_until w

module _ (sdk : Sdk) (chip : Chip sdk) where
  open sdk use {World, now}

  -- The driver counts at least the chip's write cycle from a time after the last write ended.
  pub record IsReady (s : Driver World) : Type 0 where
    pub long_enough : chip.cycle ≤ s.write_cycle_max
    pub started : s.write_init_time ≤ now s.world
    pub covered : chip.busy_until s.world ≤ s.write_init_time + s.write_cycle_max

  -- After the wait the chip is idle, and nothing else has changed.
  pub record IsIdle (s t : Driver World) : Type 0 where
    pub idle : chip.busy_until t.world ≤ now t.world
    pub ready : IsReady t
    pub same : (b : ℕ) → chip.cell t.world b ≡ chip.cell s.world b

  -- From a ready driver (the last write was noted in the past, and the chip's write cycle ends at
  -- most `write_cycle_max` behind it), `eeprom_write_cycle_block` returns with the chip outside
  -- any write cycle, the driver ready, and every cell as before.
  pub write_cycle_block-IsIdle : (s : Driver World) → IsReady s → IsIdle s (write_cycle_block sdk s)
  unfolding write_cycle_block write_cycle_check
  write_cycle_block-IsIdle s v = elim (Bool-cases (write_cycle_check sdk s)) [
    | inl long_ago ↦ rw long_ago (record {
      idle = omega (
        arith,
        ltb→lt s.write_cycle_max (sdk.time_diff_us s.write_init_time (now s.world)) long_ago,
        chip.time_diff_us_lem s.write_init_time (now s.world) v.started,
        v.covered,
        v.started,
      );
      ready = v;
      same = λ b. refl;
    })
    | inr recent ↦ rw recent (record {
      idle = omega (
        arith,
        chip.delayed_by_us_lem s.write_init_time s.write_cycle_max,
        chip.now-sleep_until (wake) s.world,
        chip.busy-sleep_until (wake) s.world,
        v.covered,
      );
      ready = record {
        long_enough = v.long_enough;
        started = omega (arith, chip.now_le_sleep (wake) s.world, v.started);
        covered = omega (arith, chip.busy-sleep_until (wake) s.world, v.covered);
      };
      same = λ b. chip.cell-sleep_until (wake) s.world b;
    })
  ]
    where
      wake : ℕ
      wake = sdk.delayed_by_us s.write_init_time s.write_cycle_max

  -- The two bytes of an address make it up again.
  pub address_bytes : (a : ℕ) → a < 2 ^ 15 → u8 (a >>> 8) * 2 ^ 8 + u8 a ≡ a
  address_bytes a h = omega arith

  -- After an address was sent the chip is idle and points at it.
  pub record Points (a : ℕ) (s t : Driver World) : Type 0 where
    pub at : chip.pointer t.world ≡ a
    pub idle : chip.busy_until t.world ≤ now t.world
    pub ready : IsReady t
    pub same : (b : ℕ) → chip.cell t.world b ≡ chip.cell s.world b

  pub write_address-Points :
      (a : ℕ) (s : Driver World) → a < 2 ^ 15 → IsReady s → Points a s (write_address sdk a s)
  unfolding write_address
  write_address-Points a s h v =
      let t = write_cycle_block sdk s in
      let w = write_cycle_block-IsIdle s v in
      let hi = u8 (a >>> 8) in
      let lo = u8 a in
      let later = chip.now-write 0x50 (hi ∷ lo ∷ []) true t.world in
      let busy = chip.busy-pointer_write hi lo true t.world w.idle in
      record {
        at = chip.pointer-write hi lo true t.world w.idle ∙ address_bytes a h;
        idle = omega (arith, later, busy, w.idle);
        ready = record {
          long_enough = w.ready.long_enough;
          started = omega (arith, later, w.ready.started);
          covered = omega (arith, busy, w.ready.covered);
        };
        same = λ b. chip.cell-pointer_write hi lo true t.world b w.idle ∙ w.same b;
      }

  -- A read of `n` cells, whatever the caller makes of the bytes.
  pub record Reads (a n : ℕ) (s : Driver World) (bytes : List ℕ) (t : Driver World) : Type 0 where
    pub bytes_lem : bytes ≡ values (chip.cell s.world) a n
    pub ready : IsReady t
    pub same : (b : ℕ) → chip.cell t.world b ≡ chip.cell s.world b

  -- From a ready driver, `eeprom_read_page` inside the chip returns the bytes of the cells from
  -- the address on, changes no cell, and leaves the driver ready.
  pub read_page-Reads :
      (a n : ℕ) (s : Driver World)
      → Within a n
      → IsReady s
      → Reads a n s (read_page sdk a n s).0 (read_page sdk a n s).1
  unfolding read_page
  read_page-Reads a n s h v =
      let t = write_address sdk a s in
      let p = write_address-Points a s (omega arith) v in
      let later = chip.now-read 0x50 n t.world in
      let busy = chip.busy-read n t.world p.idle in
      record {
        bytes_lem =
            chip.read_lem n t.world p.idle (omega (arith, p.at))
            ∙ ap (λ k. values (chip.cell t.world) k n) p.at
            ∙ ap (λ f. values f a n) (fun_ext p.same);
        ready = record {
          long_enough = p.ready.long_enough;
          started = omega (arith, later, p.ready.started);
          covered = omega (arith, busy, p.ready.covered);
        };
        same = λ b. chip.cell-read n t.world b p.idle ∙ p.same b;
      }

  pub read_byte-Reads :
      (a : ℕ) (s : Driver World)
      → a < 2 ^ 15
      → IsReady s
      → Reads a 1 s ((read_byte sdk a s).0 ∷ []) (read_byte sdk a s).1
  unfolding read_byte read_page
  read_byte-Reads a s h v =
      let r = read_page-Reads a 1 s (omega arith) v in
      record { bytes_lem = ap (λ l. get_or l 0 0 ∷ []) r.bytes_lem; ready = r.ready; same = r.same }

  -- Sending an address and bytes stores them.
  pub record Stores (a : ℕ) (bytes : List ℕ) (s t : Driver World) : Type 0 where
    pub ready : IsReady t
    pub stored : (b : ℕ) → chip.cell t.world b ≡ overwritten (chip.cell s.world) a bytes b

  -- From a ready driver, sending an address and bytes that fit in one 64-byte page inside the chip
  -- stores the bytes from that address on, leaves every other cell as it is, and leaves the driver
  -- ready.
  pub send-Stores :
      (a : ℕ) (bytes : List ℕ) (s : Driver World)
      → Fits a (length bytes)
      → IsReady s
      → Stores a bytes s (send sdk (u8 (a >>> 8) ∷ u8 a ∷ bytes) s)
  unfolding send
  send-Stores a bytes s h v =
      let t = write_cycle_block sdk s in
      let w = write_cycle_block-IsIdle s v in
      let hi = u8 (a >>> 8) in
      let lo = u8 a in
      let here : hi * 2 ^ 8 + lo ≡ a = address_bytes a (omega (arith, h.0, h.2)) in
      let busy = chip.busy-data_write hi lo bytes t.world w.idle in
      record {
        ready = record {
          long_enough = w.ready.long_enough;
          started = omega arith;
          covered = omega (arith, busy, w.ready.long_enough);
        };
        stored = λ b.
            chip.cell-data_write hi lo bytes t.world b w.idle
              (subst (λ k. Fits k (length bytes)) (sym here) h)
            ∙ ap₂ (λ k f. overwritten f k bytes b) here (fun_ext w.same);
      }

  pub overwritten_one :
      (f : ℕ → ℕ) (a c b : ℕ) → overwritten f a (c ∷ []) b ≡ (if b == a then c else f b)
  overwritten_one f a c b = elim (Bool-cases (b == a)) [
    | inl hit ↦
        let e : b ≡ a = (==_iff b a).0 hit in
        let gap : a - a ≡ 0 = omega arith in rw e (rw gap (ground arith))
    | inr miss ↦ ground arith
  ]

  pub write_byte-Stores :
      (a c : ℕ) (s : Driver World)
      → a < 2 ^ 15
      → IsReady s
      → Stores a (c ∷ []) s (write_byte sdk a c s)
  unfolding write_byte
  write_byte-Stores a c s h v = send-Stores a (c ∷ []) s (omega arith) v

  pub write_page-send :
      (a : ℕ) (src : List ℕ) (n : ℕ) (s : Driver World)
      → n ≤ length src
      → write_page sdk a src n s ≡ some (send sdk (u8 (a >>> 8) ∷ u8 a ∷ take n src) s)
  unfolding write_page
  write_page-send a src n s h = rw (read_n-take n src (omega arith)) refl

  -- The driver over the chip is a storage.
  abbrev pub storage : Storage
  storage = record {
    Mem = Driver World;
    write_byte = write_byte sdk;
    write_page = write_page sdk;
    read_byte = read_byte sdk;
    read_page = read_page sdk;
    IsReady = IsReady;
    cell = λ s. chip.cell s.world;
    store = λ a bytes s. send sdk (u8 (a >>> 8) ∷ u8 a ∷ bytes) s;
    write_byte-IsReady = λ a c m h v. (write_byte-Stores a c m h v).ready;
    cell-write_byte = λ a c m b h v.
        (write_byte-Stores a c m h v).stored b ∙ overwritten_one (chip.cell m.world) a c b;
    write_page-store = write_page-send;
    store-IsReady = λ a bytes m h v. (send-Stores a bytes m h v).ready;
    cell-store = λ a bytes m b h v. (send-Stores a bytes m h v).stored b;
    read_byte-IsReady = λ a m h v. (read_byte-Reads a m h v).ready;
    cell-read_byte = λ a m b h v. (read_byte-Reads a m h v).same b;
    read_byte-cell = λ a m h v. ap (λ l. get_or l 0 0) (read_byte-Reads a m h v).bytes_lem;
    read_page-IsReady = λ a n m h v. (read_page-Reads a n m h v).ready;
    cell-read_page = λ a n m b h v. (read_page-Reads a n m h v).same b;
    read_page-cell = λ a n m h v. (read_page-Reads a n m h v).bytes_lem;
  }
