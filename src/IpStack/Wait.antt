-- ===== src/IpStack/Wait.antt =====
-- `IPStack::read` with its wait: it returns once the time is up or enough bytes are there.
use ventilation_system_proje.Common.{
  ℕ, ◌≤◌, ◌≡◌, refl, sym, ap, ◌∙◌, List, [], ◌∷◌, true, not, ◌&&◌, Option, some, none, ◌>>=◌, ltb,
  length, arith, Bool-cases, inl, inr,
}
use ventilation_system_proje.IpStack.{Lwip, IpStack, tcp_client_recv}
use ventilation_system_proje.IpStack.Ring.{IsValid}
use ventilation_system_proje.IpStack.Receive.{Holds, receive-Received}
use ventilation_system_proje.IpStack.Fifo.{read_ring-Taken}
use ventilation_system_proje.IpStack.Calls.{Poll, run_callbacks, wait, read}

module _ (lwip : Lwip) where
  open lwip use {World, Pbuf}

  -- Chains that hold bytes, or say that the connection is closed.
  abbrev pub AllHold : List (Option Pbuf) → Type 0
  AllHold [] = Unit
  AllHold (none ∷ ps) = AllHold ps
  AllHold (some p ∷ ps) = ((xs : List ℕ) × Holds lwip p xs) × AllHold ps

  -- Polls that deliver such chains, and one of which ends the wait.
  pub data Ends : List (Poll lwip) → Type 0 where
    now :
        (p : Poll lwip) (ps : List (Poll lwip))
        → AllHold p.chains
        → p.time_reached ≡ true
        → Ends (p ∷ ps)
    later : (p : Poll lwip) (ps : List (Poll lwip)) → AllHold p.chains → Ends ps → Ends (p ∷ ps)

  recv-IsValid :
      (p : Option Pbuf) (ps : List (Option Pbuf)) (s : IpStack) (w : World)
      → AllHold (p ∷ ps)
      → IsValid s
      → (s' : IpStack) × (w' : World) × (tcp_client_recv lwip p s w ≡ some (s', w'))
        × IsValid s'
        × AllHold ps
  unfolding tcp_client_recv
  recv-IsValid none ps s w h v = (s, w, refl, v, h)
  recv-IsValid (some p) ps s w ((xs, holds), h) v =
      let r = receive-Received lwip holds s v in
      elim (Bool-cases (ltb 0 (lwip.tot_len p))) [
        | inl bytes ↦ rw (bytes) (
          r.stack,
          _,
          ap (λ o. o >>= (λ s'. some (s', lwip.pbuf_free p (lwip.tcp_recved (lwip.tot_len p) w))))
              r.returns,
          r.valid,
          h,
        )
        | inr empty ↦ rw (empty) (s, _, refl, v, h)
      ]

  run_callbacks-IsValid :
      (ps : List (Option Pbuf)) (s : IpStack) (w : World)
      → AllHold ps
      → IsValid s
      → (s' : IpStack) × (w' : World) × (run_callbacks lwip ps s w ≡ some (s', w')) × IsValid s'
  unfolding run_callbacks
  run_callbacks-IsValid [] s w h v = (s, w, refl, v)
  run_callbacks-IsValid (p ∷ ps) s w h v =
      let (s1, w1, e, v1, h1) = recv-IsValid p ps s w h v in
      let (s2, w2, e2, v2) = run_callbacks-IsValid ps s1 w1 h1 v1 in
      (s2, w2, ap (λ o. o >>= (λ n. run_callbacks lwip ps n.0 n.1)) e ∙ e2, v2)

  wait-IsValid :
      (ps : List (Poll lwip)) (len : ℕ) (s : IpStack) (w : World)
      → Ends ps
      → IsValid s
      → (s' : IpStack) × (w' : World) × (wait lwip ps len s w ≡ some (s', w')) × IsValid s'
  unfolding wait
  wait-IsValid _ len s w (now p ps h up) v =
      let (s1, w1, e, v1) = run_callbacks-IsValid p.chains s w h v in
      elim (Bool-cases (ltb s1.count len)) [
        | inl short ↦ (s1, w1, rw (e, short, up) refl, v1)
        | inr enough ↦ (s1, w1, rw (e, enough) refl, v1)
      ]
  wait-IsValid _ len s w (later p ps h ends) v =
      let (s1, w1, e, v1) = run_callbacks-IsValid p.chains s w h v in
      let (s2, w2, e2, v2) = wait-IsValid ps len s1 w1 ends v1 in
      elim (Bool-cases (ltb s1.count len && not p.time_reached)) [
        | inl again ↦ (s2, w2, rw (e, again) e2, v2)
        | inr enough ↦ (s1, w1, rw (e, enough) refl, v1)
      ]

  -- What a `read` that waits returns.
  pub record Reads (len : ℕ) (out : Option (List ℕ × ℕ × IpStack × World)) : Type 0 where
    pub bytes : List ℕ
    pub stack : IpStack
    pub world : World
    pub returns : out ≡ some (bytes, length bytes, stack, world)
    pub at_most : length bytes ≤ len
    pub valid : IsValid stack

  -- From a valid ring buffer, when the polls deliver chains of bytes and the time is up behind one
  -- of them, `read` returns at most as many bytes as were asked for, and their number; no copy on
  -- the way leaves the buffer, which is valid again.
  pub read-Reads :
      (ps : List (Poll lwip)) (len : ℕ) (s : IpStack) (w : World)
      → Ends ps
      → IsValid s
      → Reads len (read lwip ps len s w)
  unfolding read
  read-Reads ps len s w ends v =
      let (s1, w1, e, v1) = wait-IsValid ps len s w ends v in
      let r = read_ring-Taken len s1 v1 in
      let size = r.size in
      record {
        bytes = r.bytes;
        stack = r.stack;
        world = w1;
        returns = rw (e) (rw (r.returns) (ap (λ n. some (r.bytes, n, r.stack, w1)) (sym size)));
        at_most = omega arith;
        valid = r.valid;
      }
