-- ===== src/IpStack/Fifo.antt =====
-- The ring buffer is a queue: what is received goes behind, and `IPStack::read` takes from the
-- front.
use ventilation_system_proje.Common.{
  ℕ, ◌+◌, ◌-◌, ◌%◌, ◌≤◌, ◌<◌, ◌≡◌, inl, inr, refl, sym, ap, ap₂, ◌∙◌, List, [], ◌++◌, Option, some,
  ◌==◌, ltb, if◌then◌else◌, u16, length, take, values, min, arith, dec_lt, le→leb, lt→ltb, le→ltb,
  subst, append_assoc, append-nil, length-append, of_some_eq, Bool-cases, ==_iff,
}
use ventilation_system_proje.Common.Cells.{values-append, values-along, values-take, length-values}
use ventilation_system_proje.IpStack.{
  Lwip, IpStack, copy_out, receive, read_ring, read_once, read_twice,
}
use ventilation_system_proje.IpStack.Ring.{IsValid, wrapped_inside, wrapped_outside}
use ventilation_system_proje.IpStack.Receive.{Holds, taken, Received, receive-Received}

-- The bytes from the read index on, round the end.
unfoldable pub contents : IpStack → List ℕ
contents s = values (λ i. s.buffer (i % 2048)) s.rd s.count

-- What was received is behind what was there.
pub contents-Received :
    (s : IpStack) (xs : List ℕ) (out : Option IpStack)
    → IsValid s
    → (r : Received s xs out) → contents r.stack ≡ contents s ++ take (taken s xs) xs
unfolding contents
contents-Received s xs out v r =
    let n = taken s xs in
    let fits = v.fits in
    let at = v.wr_at in
    let inside = v.rd_in in
    let cell = λ (i : ℕ). r.stack.buffer (i % 2048) in
    ap₂ (values cell) r.rd r.count
    ∙ values-append cell s.rd s.count n
    ∙ ap₂ (λ a b. a ++ b)
        (values-along cell (λ i. s.buffer (i % 2048)) s.rd s.rd s.count
          (λ j q.
            r.cells ((s.rd + j) % 2048) (omega arith)
            ∙ wrapped_outside s.buffer s.wr n xs ((s.rd + j) % 2048) (omega arith)))
        (values-take cell (s.rd + s.count) n xs (omega arith) (λ j q.
          r.cells ((s.rd + s.count + j) % 2048) (omega arith)
          ∙ wrapped_inside s.buffer s.wr n xs ((s.rd + s.count + j) % 2048) j (omega arith) q))

-- What a read of at most `len` bytes gives: the front of the queue, all of it if it is shorter.
pub record Taken (len : ℕ) (s : IpStack) (out : Option (List ℕ × ℕ × IpStack)) : Type 0 where
  pub bytes : List ℕ
  pub stack : IpStack
  pub returns : out ≡ some (bytes, min s.count len, stack)
  pub valid : IsValid stack
  pub size : length bytes ≡ min s.count len
  pub front : bytes ++ contents stack ≡ contents s

-- The queue behind its first `n` bytes.
split :
    (s : IpStack) (n rd : ℕ) (bytes : List ℕ)
    → n ≤ s.count
    → rd ≡ (s.rd + n) % 2048
    → values (λ i. s.buffer (i % 2048)) s.rd n ≡ bytes
    → bytes ++ contents (record s { rd = rd; count = s.count - n }) ≡ contents s
unfolding contents
split s n rd bytes h e front =
    let cell = λ (i : ℕ). s.buffer (i % 2048) in
    let all : n + (s.count - n) ≡ s.count = omega arith in
    ap₂ (λ a b. a ++ b) (sym front)
      (values-along cell cell rd (s.rd + n) (s.count - n) (λ j q. ap s.buffer (omega arith)))
    ∙ sym (values-append cell s.rd n (s.count - n))
    ∙ ap (values cell s.rd) all

read_once-Taken :
    (len : ℕ) (s : IpStack)
    → IsValid s
    → s.rd + min s.count len ≤ 2048
    → Taken len s (read_once (min s.count len) s)
unfolding read_once copy_out
read_once-Taken len s v room =
    let n = min s.count len in
    let fits = v.fits in
    let at = v.wr_at in
    let inside = v.rd_in in
    record {
      bytes = values s.buffer s.rd n;
      stack = record s { rd = (s.rd + n) % 2048; count = s.count - n };
      returns = rw (le→leb (s.rd + n) 2048 room) refl;
      valid = record { fits = omega arith; rd_in = omega arith; wr_at = omega arith };
      size = length-values s.buffer s.rd n;
      front = split s n ((s.rd + n) % 2048) (values s.buffer s.rd n) (omega arith) refl (
          values-along (λ i. s.buffer (i % 2048)) s.buffer s.rd s.rd n
            (λ j q. ap s.buffer (omega arith)));
    }

read_twice-Taken :
    (len : ℕ) (s : IpStack)
    → IsValid s
    → 2048 < s.rd + min s.count len
    → Taken len s (read_twice (min s.count len) s)
unfolding read_twice copy_out
read_twice-Taken len s v over =
    let n = min s.count len in
    let k = 2048 - s.rd in
    let fits = v.fits in
    let at = v.wr_at in
    let inside = v.rd_in in
    let bytes = values s.buffer s.rd k ++ values s.buffer 0 (n - k) in
    let first_copy : u16 (2048 - s.rd) ≡ k = omega arith in
    let rest : u16 (n - k) ≡ n - k = omega arith in
    let total : n - k + k ≡ n = omega arith in
    let left : s.count - k - (n - k) ≡ s.count - n = omega arith in
    let parts : k + (n - k) ≡ n = omega arith in
    let cell = λ (i : ℕ). s.buffer (i % 2048) in
    record {
      bytes = bytes;
      stack = record s { rd = n - k; count = s.count - n };
      returns = rw (first_copy) (
          rw (le→leb (s.rd + k) 2048 (omega arith), le→leb (0 + (n - k)) 2048 (omega arith))
            (rw (rest, total, left) refl));
      valid = record { fits = omega arith; rd_in = omega arith; wr_at = omega arith };
      size = omega (
        arith,
        length-append (values s.buffer s.rd k) (values s.buffer 0 (n - k)),
        length-values s.buffer s.rd k,
        length-values s.buffer 0 (n - k),
      );
      front = split s n (n - k) bytes (omega arith) (omega arith) (
          ap (values cell s.rd) (sym parts)
          ∙ values-append cell s.rd k (n - k)
          ∙ ap₂ (λ a b. a ++ b)
              (values-along cell s.buffer s.rd s.rd k (λ j q. ap s.buffer (omega arith)))
              (values-along cell s.buffer (s.rd + k) 0 (n - k) (λ j q. ap s.buffer (omega arith))));
    }

-- On a valid ring buffer `read`, behind its wait, gives the front of the queue: as many bytes as
-- are asked for, or all if there are fewer, in order, and the rest is still there; no copy leaves
-- the buffer, which is valid again.
pub read_ring-Taken : (len : ℕ) (s : IpStack) → IsValid s → Taken len s (read_ring len s)
unfolding read_ring
read_ring-Taken len s v =
    let n = min s.count len in
    let fits = v.fits in
    let inside = v.rd_in in
    let chosen : (if ltb s.count len then s.count else len) ≡ n = ground arith in
    let rd_end : u16 (s.rd + n) ≡ s.rd + n = omega arith in
    elim (Bool-cases (n == 0)) [
      | inl none_there ↦
          let zero_there = (==_iff n 0).0 none_there in
          rw (chosen, rd_end, none_there)
            (record {
              bytes = [];
              stack = s;
              returns = ap (λ t. some ([], t, s)) (sym zero_there);
              valid = v;
              size = sym zero_there;
              front = refl;
            })
      | inr some_there ↦ elim (dec_lt 2048 (s.rd + n)) [
        | yes over ↦
            rw (chosen, rd_end, some_there, lt→ltb 2048 (s.rd + n) over)
              (read_twice-Taken len s v over)
        | no room ↦
            rw (chosen, rd_end, some_there, le→ltb 2048 (s.rd + n) (omega arith))
              (read_once-Taken len s v (omega arith))
      ]
    ]

-- Steps of the stack, with the bytes that were taken in and the bytes that were read.
pub data Runs (lwip : Lwip) (s : IpStack) : List ℕ → List ℕ → IpStack → Type 0 where
  start : Runs lwip s [] [] s
  reception :
      (taken_in read_out : List ℕ) (s1 s2 : IpStack) (p : lwip.Pbuf) (xs : List ℕ)
      → Runs lwip s taken_in read_out s1
      → Holds lwip p xs
      → receive lwip p s1 ≡ some s2
      → Runs lwip s (taken_in ++ take (taken s1 xs) xs) read_out s2
  reading :
      (taken_in read_out : List ℕ) (s1 s2 : IpStack) (len n : ℕ) (bytes : List ℕ)
      → Runs lwip s taken_in read_out s1
      → read_ring len s1 ≡ some (bytes, n, s2)
      → Runs lwip s taken_in (read_out ++ bytes) s2

-- From a valid ring buffer, however receptions and reads alternate, the bytes that were read
-- followed by those that are still there are the bytes that were there at first followed by those
-- that were taken in: none is lost, doubled or out of order, and the buffer stays valid.
pub Runs-fifo :
    (lwip : Lwip) (s s' : IpStack) (taken_in read_out : List ℕ)
    → IsValid s
    → Runs lwip s taken_in read_out s'
    → IsValid s' × (read_out ++ contents s' ≡ contents s ++ taken_in)
Runs-fifo lwip s s' _ _ v start = (v, sym (append-nil (contents s)))
Runs-fifo lwip s s' _ _ v (reception i o s1 s2 p xs before holds e) =
    let (v1, same) = Runs-fifo lwip s s1 i o v before in
    let r = receive-Received lwip holds s1 v1 in
    let there = of_some_eq (sym r.returns ∙ e) in
    (
      subst IsValid there r.valid,
      ap (λ t. o ++ contents t) (sym there)
          ∙ ap (λ t. o ++ t) (contents-Received s1 xs (receive lwip p s1) v1 r)
          ∙ sym (append_assoc o (contents s1) (take (taken s1 xs) xs))
          ∙ ap (λ t. t ++ take (taken s1 xs) xs) same
          ∙ append_assoc (contents s) i (take (taken s1 xs) xs),
    )
Runs-fifo lwip s s' _ _ v (reading i o s1 s2 len n bytes before e) =
    let (v1, same) = Runs-fifo lwip s s1 i o v before in
    let r = read_ring-Taken len s1 v1 in
    let there = of_some_eq (sym r.returns ∙ e) in
    let out = ap (λ t. t.0) there in
    let stack = ap (λ t. t.2) there in
    (
      subst IsValid stack r.valid,
      append_assoc o bytes (contents s2)
          ∙ ap₂ (λ b t. o ++ (b ++ contents t)) (sym out) (sym stack)
          ∙ ap (λ t. o ++ t) r.front
          ∙ same,
    )
