-- ===== src/IpStack/Calls.antt =====
-- The calls of `IPStack` around the ring buffer: the constructor, `connect`, the wait of `read`,
-- `write` and `disconnect`.
use Prim.Native.String.{String}
use ventilation_system_proje.Common.{
  ℕ, ◌≡◌, ◌↔◌, refl, List, [], ◌∷◌, Bool, true, false, not, ◌&&◌, Option, some, none, ◌>>=◌, ltb,
  if◌then◌else◌, length, arith, Bool-cases, inl, inr,
}
use ventilation_system_proje.Common.Int.{ℤ, pos, negsuc}
use ventilation_system_proje.IpStack.{Lwip, IpStack, read_ring, tcp_client_recv}

module _ (lwip : Lwip) where
  open lwip use {World, Pbuf, Err, is_ok}

  -- The constructor, in the memory `raw` of the object, of which `buffer` and `dropped` stay.
  unfoldable pub ip_stack : IpStack → String → String → World → IpStack × World
  ip_stack raw ssid pw w =
      let s = record raw {
        count = 0;
        wr = 0;
        rd = 0;
        connected = false;
        success = false;
        has_pcb = false;
      } in
      let (failed, w1) = lwip.arch_init w in
      let (no_wifi, w2) = lwip.wifi_connect ssid pw w1 in
      if failed then (s, w1) else if no_wifi then (s, w2) else (record s { success = true }, w2)

  -- `connect` with the name as a text, and with a number, which it never does.
  unfoldable pub connect : String → ℕ → IpStack → World → Err × IpStack × World
  connect hostname port s w =
      let (known, w1) = lwip.ip4addr_aton hostname w in
      let (made, w2) = lwip.tcp_new w1 in
      let (err, w3) = lwip.tcp_connect port (lwip.set_callbacks w2) in
      if not known
      then (lwip.err_arg, s, w1)
      else if not made
      then (lwip.err_mem, record s { has_pcb = false }, w2)
      else (err, record s { has_pcb = true }, w3)

  unfoldable pub connect_number : ℕ → ℕ → IpStack → World → Err × IpStack × World
  connect_number hostname port s w = (lwip.err_arg, s, w)

  -- What happens while `cyw43_arch_poll` runs, and whether the time is up behind it.
  pub record Poll : Type 0 where
    pub chains : List (Option Pbuf)
    pub time_reached : Bool

  unfoldable pub run_callbacks : List (Option Pbuf) → IpStack → World → Option (IpStack × World)
  run_callbacks [] s w = some (s, w)
  run_callbacks (p ∷ ps) s w = do next ← tcp_client_recv lwip p s w; run_callbacks ps next.0 next.1

  -- The wait of `read` over the polls to come: `none` where one of them copies past the end of
  -- the buffer, or where it still waits behind the last.
  unfoldable pub wait : List Poll → ℕ → IpStack → World → Option (IpStack × World)
  unfolding run_callbacks
  wait [] len s w = none
  wait (p ∷ ps) len s w = do
    next ← run_callbacks p.chains s w
    let later = wait ps len next.0 next.1
    (if ltb next.0.count len && not p.time_reached then later else some next)

  unfoldable pub read : List Poll → ℕ → IpStack → World → Option (List ℕ × ℕ × IpStack × World)
  unfolding wait read_ring
  read polls len s w = do
    waited ← wait polls len s w
    (bytes, n, s') ← read_ring len waited.0
    some (bytes, n, s', waited.1)

  -- `write` gives the length, -1 if the bytes were not taken, or -2 if they were not sent.
  unfoldable pub write : List ℕ → World → ℤ × World
  write bytes w =
      let (err, w1) = lwip.tcp_write bytes w in
      let (sent, w2) = lwip.tcp_output w1 in
      let rv = if is_ok err then pos (length bytes) else negsuc 0 in
      (if is_ok sent then rv else negsuc 1, w2)

  unfoldable pub disconnect : IpStack → World → Err × IpStack × World
  disconnect s w =
      let (err, w1) = lwip.tcp_close (lwip.clear_callbacks w) in
      let s' = record s { has_pcb = false } in
      if not s.has_pcb
      then (lwip.err_ok, s, w)
      else if is_ok err
      then (err, s', w1)
      else (lwip.err_abrt, s', lwip.tcp_abort w1)

  -- `write` returns the length exactly when lwIP took the bytes and sent them.
  pub write_iff :
      (bytes : List ℕ) (w : World)
      → ((write bytes w).0 ≡ pos (length bytes)) ↔ (
          (is_ok (lwip.tcp_write bytes w).0 ≡ true)
          × (is_ok (lwip.tcp_output (lwip.tcp_write bytes w).1).0 ≡ true))
  unfolding write
  write_iff bytes w = ground arith

  -- However closing ends, behind `disconnect` there is no control block, and another call changes
  -- nothing and returns ERR_OK.
  pub disconnect-disconnect :
      (s : IpStack) (w : World)
      → let out = disconnect s w in
        (out.1.has_pcb ≡ false) × (disconnect out.1 out.2 ≡ (lwip.err_ok, out.1, out.2))
  unfolding disconnect
  disconnect-disconnect s w = elim (Bool-cases s.has_pcb) [
    | inl there ↦ elim (Bool-cases (is_ok (lwip.tcp_close (lwip.clear_callbacks w)).0)) [
      | inl closed ↦ rw (there, closed) (refl, refl)
      | inr aborted ↦ rw (there, aborted) (refl, refl)
    ]
    | inr gone ↦ rw (gone) (refl, refl)
  ]
