-- ===== src/IpStack/Receive.antt =====
-- What `tcp_client_recv` makes of the ring buffer when a chain of bytes arrives.
use ventilation_system_proje.Common.{
  ℕ, ◌+◌, ◌-◌, ◌%◌, ◌^◌, ◌≤◌, ◌<◌, ◌≡◌, inl, inr, refl, ap, ◌∙◌, List, false, Option, some, ◌>>=◌,
  ◌==◌, ltb, if◌then◌else◌, u16, u32, length, take, drop, min, arith, dec_lt, length-take,
  length-drop, le→leb, lt→ltb, le→ltb, Bool-cases,
}
use ventilation_system_proje.Common.Cells.{overwritten}
use ventilation_system_proje.IpStack.{Lwip, IpStack, copy_in, receive, receive_first, receive_rest}
use ventilation_system_proje.IpStack.Ring.{IsValid, wrapped, one_part, two_parts}

-- What lwIP documents of a chain that holds the bytes `xs`, a length of 16 bits.
pub record Holds (lwip : Lwip) (p : lwip.Pbuf) (xs : List ℕ) : Type 0 where
  pub size : lwip.tot_len p ≡ length xs
  pub small : length xs < 2 ^ 16
  pub copy :
      (n from : ℕ) → from + n ≤ length xs → lwip.copy_partial p n from ≡ take n (drop from xs)

-- The state behind a copy of bytes at the write index.
abbrev pub copied : List ℕ → ℕ → ℕ → IpStack → IpStack
copied bytes wr n s = record s {
  buffer = overwritten s.buffer s.wr bytes;
  wr = wr;
  count = s.count + n;
}

module _ (lwip : Lwip) {p : lwip.Pbuf} {xs : List ℕ} (h : Holds lwip p xs) where
  receive_rest_lem :
      (n from : ℕ) (s : IpStack)
      → from + n ≤ length xs
      → s.wr + n ≤ 2048
      → s.count + n ≤ 2048
      → receive_rest lwip p n from s ≡ some (copied (take n (drop from xs)) ((s.wr + n) % 2048) n s)
  unfolding receive_rest copy_in
  receive_rest_lem n from s inside room more =
      let size : length (take n (drop from xs)) ≡ n =
        omega (arith, length-take n (drop from xs), length-drop from xs) in
      let fits = le→leb (s.wr + n) 2048 room in
      let wr : u16 (s.wr + n) % 2048 ≡ (s.wr + n) % 2048 = omega arith in
      let count : u16 (s.count + n) ≡ s.count + n = omega arith in
      rw (h.copy n from inside) (rw (size) (rw (fits) (rw (wr, count) refl)))

  receive_first_lem :
      (n : ℕ) (s : IpStack)
      → s.wr < 2048
      → 2048 < s.wr + n
      → n ≤ length xs
      → s.count + n ≤ 2048
      → receive_first lwip p n (2048 - s.wr) s
        ≡ some (copied (take (2048 - s.wr) xs) 0 (2048 - s.wr) s, n - (2048 - s.wr))
  unfolding receive_first copy_in
  receive_first_lem n s inside over enough more =
      let k = 2048 - s.wr in
      let size : length (take k xs) ≡ k = omega (arith, length-take k xs) in
      let some_first : (k == 0) ≡ false = ground arith in
      let fits = le→leb (s.wr + k) 2048 (omega arith) in
      let count : u16 (s.count + k) ≡ s.count + k = omega arith in
      let left : u16 (n - k) ≡ n - k = omega arith in
      rw (some_first, h.copy k 0 (omega arith)) (rw (size) (rw (fits) (rw (count, left) refl)))

-- What is left of the free space.
abbrev pub taken : IpStack → List ℕ → ℕ
taken s xs = min (2048 - s.count) (length xs)

-- As many bytes as fit are behind the ones that were there, and the others are counted as dropped.
pub record Received (s : IpStack) (xs : List ℕ) (out : Option IpStack) : Type 0 where
  pub stack : IpStack
  pub returns : out ≡ some stack
  pub valid : IsValid stack
  pub cells : (b : ℕ) → b < 2048 → stack.buffer b ≡ wrapped s.buffer s.wr (taken s xs) xs b
  pub count : stack.count ≡ s.count + taken s xs
  pub rd : stack.rd ≡ s.rd
  pub dropped : stack.dropped ≡ (
      if ltb (taken s xs) (length xs)
      then u32 (s.dropped + (length xs - taken s xs))
      else s.dropped)

-- The count of dropped bytes.
abbrev pub counted : IpStack → List ℕ → IpStack
counted s xs = record s {
  dropped =
      if ltb (taken s xs) (length xs)
      then u32 (s.dropped + (length xs - taken s xs))
      else s.dropped;
}

counted_lem :
    (s : IpStack) (xs : List ℕ)
    → (if ltb (taken s xs) (length xs)
        then record s { dropped = u32 (s.dropped + (length xs - taken s xs)) }
        else s)
      ≡ counted s xs
counted_lem s xs = elim (Bool-cases (ltb (taken s xs) (length xs))) [
  | inl short ↦ rw short refl
  | inr all ↦ rw all refl
]

module _ (lwip : Lwip) {p : lwip.Pbuf} {xs : List ℕ} (h : Holds lwip p xs) where
  receive-once :
      (s : IpStack)
      → IsValid s
      → s.wr + taken s xs ≤ 2048
      → receive lwip p s ≡ receive_rest lwip p (taken s xs) 0 (counted s xs)
  unfolding receive
  receive-once s v room =
      let fits = v.fits in
      let small = h.small in
      let n = taken s xs in
      let available : u16 (2048 - s.count) ≡ 2048 - s.count = omega arith in
      let chosen : (if ltb (length xs) (2048 - s.count) then length xs else 2048 - s.count) ≡ n =
        ground arith in
      let wr_end : u16 (s.wr + n) ≡ s.wr + n = omega arith in
      rw (h.size) (
        rw (available) (
          rw (chosen)
            (rw (counted_lem s xs) (rw (wr_end) (rw (le→ltb 2048 (s.wr + n) room) refl)))))

  receive-twice :
      (s : IpStack)
      → IsValid s
      → 2048 < s.wr + taken s xs
      → receive lwip p s ≡ (do
        first ← receive_first lwip p (taken s xs) (2048 - s.wr) (counted s xs)
        receive_rest lwip p first.1 (2048 - s.wr) first.0)
  unfolding receive
  receive-twice s v over =
      let fits = v.fits in
      let at = v.wr_at in
      let small = h.small in
      let n = taken s xs in
      let available : u16 (2048 - s.count) ≡ 2048 - s.count = omega arith in
      let chosen : (if ltb (length xs) (2048 - s.count) then length xs else 2048 - s.count) ≡ n =
        ground arith in
      let wr_end : u16 (s.wr + n) ≡ s.wr + n = omega arith in
      let first_copy : u16 (2048 - s.wr) ≡ 2048 - s.wr = omega arith in
      rw (h.size) (
        rw (available) (
          rw (chosen) (
            rw (counted_lem s xs)
              (rw (wr_end) (rw (first_copy) (rw (lt→ltb 2048 (s.wr + n) over) refl))))))

  -- A chain of bytes that lwIP hands over is copied behind the bytes of a valid ring buffer, round
  -- its end, as far as there is room; the rest is counted as dropped, no copy leaves the buffer,
  -- and the buffer is valid again.
  pub receive-Received : (s : IpStack) → IsValid s → Received s xs (receive lwip p s)
  receive-Received s v =
      let fits = v.fits in
      let at = v.wr_at in
      let inside = v.rd_in in
      let n = taken s xs in
      let k = 2048 - s.wr in
      let s1 = counted s xs in
      elim (dec_lt 2048 (s.wr + n)) [
        | yes over ↦
            let s2 = copied (take k xs) 0 k s1 in
            record {
              stack = copied (take (n - k) (drop k xs)) (n - k) (n - k) s2;
              returns =
                  receive-twice s v over
                  ∙ rw
                      (receive_first_lem lwip h n s1 (omega arith) over (omega arith) (omega arith))
                      (rw
                        (receive_rest_lem lwip h (n - k) k s2 (omega arith) (omega arith)
                          (omega arith))
                        (ap (λ t. some (copied (take (n - k) (drop k xs)) t (n - k) s2))
                          (omega arith)));
              valid = record { fits = omega arith; rd_in = inside; wr_at = omega arith };
              cells = λ b q.
                  two_parts s.buffer s.wr n xs b over (omega arith) (omega arith) q (omega arith);
              count = omega arith;
              rd = refl;
              dropped = refl;
            }
        | no room ↦ record {
          stack = copied (take n xs) ((s.wr + n) % 2048) n s1;
          returns =
              receive-once s v (omega arith)
              ∙ receive_rest_lem lwip h n 0 s1 (omega arith) (omega arith) (omega arith);
          valid = record { fits = omega arith; rd_in = inside; wr_at = omega arith };
          cells = λ b q. one_part s.buffer s.wr n xs b (omega arith) (omega arith) q (omega arith);
          count = refl;
          rd = refl;
          dropped = refl;
        }
      ]
