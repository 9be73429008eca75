-- ===== src/Modbus/Bus/Receiving.antt =====
-- What the MODBUS line has received, byte by byte, behind the start of a transfer.
use ventilation_system_proje.Common.{
  ℕ, ◌+◌, ◌-◌, ◌≤◌, ◌<◌, ◌≡◌, refl, ap, ◌∙◌, subst, ◌≢◌, inl, inr, true, ◌&&◌, some, List, [], ◌∷◌,
  ◌++◌, append_assoc, append-nil, arith, ltb, ◌==◌, lt→ltb, ==_iff, Bool-cases, length, set, drop,
  length-append, length-drop,
}
use ventilation_system_proje.Modbus.{ModbusRegister, frame}
use ventilation_system_proje.Modbus.Bus.{
  ModbusCtrl, with_register, Event, pass, receive, Mark, dma_receive, enabled, step, Runs, next,
}

-- The events of an answer, each byte behind a time that passes, on top of the events before.
abbrev pub answers : List (ℕ × ℕ) → List Event → List Event
answers [] es = es
answers (b ∷ bs) es = answers bs (receive b.1 ∷ pass b.0 ∷ es)

abbrev pub bytes_of : List (ℕ × ℕ) → List ℕ
bytes_of [] = []
bytes_of (b ∷ bs) = b.1 ∷ bytes_of bs

-- What a buffer holds when `bytes` have come in at its front.
abbrev pub over : List ℕ → List ℕ → List ℕ
over bytes old = bytes ++ drop (length bytes) old

set-over :
    (bytes old : List ℕ) (v : ℕ)
    → length bytes < length old
    → set (over bytes old) (length bytes) v ≡ over (bytes ++ v ∷ []) old
set-over [] [] v h = absurd (omega arith)
set-over [] (x ∷ old) v h = refl
set-over (b ∷ bytes) [] v h = absurd (omega arith)
set-over (b ∷ bytes) (x ∷ old) v h = ap (λ t. b ∷ t) (set-over bytes old v (omega arith))

length-over :
    (bytes old : List ℕ) → length bytes ≤ length old → length (over bytes old) ≡ length old
length-over bytes old h =
    omega (arith, length-append bytes (drop (length bytes) old), length-drop (length bytes) old)

-- The controller while the answer comes in that `bytes` are the front of.
pub record IsReceiving (s : ModbusCtrl) (who rxlen : ℕ) (bytes : List ℕ) (t : ModbusCtrl)
    : Type 0 where
  pub user : t.current_user ≡ some who
  pub channel : t.rx_user ≡ who
  pub offset : t.rx_offset ≡ length bytes
  pub left : t.rx_left ≡ rxlen - length bytes
  pub complete : t.rx_irq ≡ (ltb 0 (length bytes) && (length bytes == rxlen))
  pub sent : t.tx ≡ frame (s.registers who)
  pub register :
      t.registers who ≡ record (s.registers who) { rxbuf = over bytes (s.registers who).rxbuf }
  pub others : (k : ℕ) → k ≢ who → t.registers k ≡ s.registers k

pub with_register_self :
    (who : ℕ) (r : ModbusRegister) (registers : ℕ → ModbusRegister)
    → with_register who r registers who ≡ r
with_register_self who r registers = rw ((==_iff who who).1 refl) refl

pub with_register_ne :
    (who k : ℕ) (r : ModbusRegister) (registers : ℕ → ModbusRegister)
    → k ≢ who
    → with_register who r registers k ≡ registers k
with_register_ne who k r registers h = elim (Bool-cases (k == who)) [
  | inl e ↦ absurd (h ((==_iff k who).0 e))
  | inr e ↦ rw e refl
]

stored_register :
    (registers : ℕ → ModbusRegister) (r : ModbusRegister) (who user offset v : ℕ) (bytes : List ℕ)
    → user ≡ who
    → offset ≡ length bytes
    → registers who ≡ record r { rxbuf = over bytes r.rxbuf }
    → length bytes < length r.rxbuf
    → with_register user
        (record (registers user) { rxbuf = set (registers user).rxbuf offset v })
        registers
        who
      ≡ record r { rxbuf = over (bytes ++ v ∷ []) r.rxbuf }
stored_register registers r who user offset v bytes e1 e2 e3 h =
    rw (e1, e2)
      (with_register_self who
          (record (registers who) { rxbuf = set (registers who).rxbuf (length bytes) v }) registers
        ∙ ap (λ (t : ModbusRegister). record t { rxbuf = set t.rxbuf (length bytes) v }) e3
        ∙ ap (λ (t : List ℕ). record r { rxbuf = t }) (set-over bytes r.rxbuf v h))

module _ (rxbuf_at : ℕ → ℕ) where
  -- The state behind a byte, when there is room for it.
  abbrev stored : ℕ → ModbusCtrl → ModbusCtrl
  stored v s = record s {
    registers =
        with_register s.rx_user
          (record (s.registers s.rx_user) {
            rxbuf = set (s.registers s.rx_user).rxbuf s.rx_offset v;
          })
          s.registers;
    rx_offset = s.rx_offset + 1;
    rx_left = s.rx_left - 1;
    rx_irq = s.rx_left == 1;
  }

  dma_receive-stored :
      (v : ℕ) (s : ModbusCtrl)
      → s.rx_offset < length (s.registers s.rx_user).rxbuf
      → dma_receive rxbuf_at v s ≡ some (stored v s)
  unfolding dma_receive
  dma_receive-stored v s h = rw (lt→ltb s.rx_offset (length (s.registers s.rx_user).rxbuf) h) refl

  pub room :
      (s : ModbusCtrl) (who rxlen : ℕ) (bytes : List ℕ) (t : ModbusCtrl)
      → IsReceiving s who rxlen bytes t
      → length bytes < length (s.registers who).rxbuf
      → t.rx_offset < length (t.registers t.rx_user).rxbuf
  room s who rxlen bytes t r fits =
      let same : length (t.registers t.rx_user).rxbuf ≡ length (s.registers who).rxbuf =
        ap (λ k. length (t.registers k).rxbuf) r.channel
        ∙ ap (λ (x : ModbusRegister). length x.rxbuf) r.register
        ∙ length-over bytes (s.registers who).rxbuf (omega arith) in
      omega (arith, same, r.offset)

  stored-IsReceiving :
      (s : ModbusCtrl) (who rxlen us v : ℕ) (bytes : List ℕ) (t : ModbusCtrl)
      → IsReceiving s who rxlen bytes t
      → length bytes < rxlen
      → rxlen ≤ length (s.registers who).rxbuf
      → IsReceiving s who rxlen (bytes ++ v ∷ []) (stored v (record t { now = t.now + us }))
  stored-IsReceiving s who rxlen us v bytes t r short fits = record {
    user = r.user;
    channel = r.channel;
    offset = omega (arith, r.offset, length-append bytes (v ∷ []));
    left = omega (arith, r.left, length-append bytes (v ∷ []));
    complete = ground (arith, r.left, length-append bytes (v ∷ []));
    sent = r.sent;
    register =
        stored_register t.registers (s.registers who) who t.rx_user t.rx_offset v bytes r.channel
          r.offset r.register (omega arith);
    others =
        λ k h. with_register_ne t.rx_user k _ t.registers (λ e. h (e ∙ r.channel)) ∙ r.others k h;
  }

  -- An answer that fits is received byte by byte.
  pub answers-IsReceiving :
      (s : ModbusCtrl) (who rxlen : ℕ) (answer : List (ℕ × ℕ)) (bytes : List ℕ) (s0 t : ModbusCtrl)
      (es : List Event) (ms : List Mark)
      → Runs rxbuf_at s0 es ms t
      → IsReceiving s who rxlen bytes t
      → length bytes + length (bytes_of answer) ≤ rxlen
      → rxlen ≤ length (s.registers who).rxbuf
      → (u : ModbusCtrl) × Runs rxbuf_at s0 (answers answer es) ms u
        × IsReceiving s who rxlen (bytes ++ bytes_of answer) u
  unfolding step enabled
  answers-IsReceiving s who rxlen [] bytes s0 t es ms run r short fits = (t, run, rw append-nil r)
  answers-IsReceiving s who rxlen ((us, v) ∷ answer) bytes s0 t es ms run r short fits =
      let later : ModbusCtrl = record t { now = t.now + us } in
      let able : ltb 0 t.rx_left ≡ true = ground (arith, r.left) in
      let one =
        next {t = later} (receive v) (next (pass us) run refl refl) able
          (dma_receive-stored v later (room s who rxlen bytes t r (omega arith))) in
      let (u, all, got) =
        answers-IsReceiving s who rxlen answer (bytes ++ v ∷ []) s0 (stored v later)
          (receive v ∷ pass us ∷ es) ms one
          (stored-IsReceiving s who rxlen us v bytes t r (omega arith) fits)
          (omega (arith, length-append bytes (v ∷ []))) fits in
      (
        u,
        all,
        subst (λ l. IsReceiving s who rxlen l u) (append_assoc bytes (v ∷ []) (bytes_of answer))
            got,
      )
