-- ===== src/IpStack.antt =====
-- `IPStack` of src/IPStack.h and IPStack.cpp: the ring buffer between lwIP's callbacks and the MQTT
-- client, and the calls of lwIP around it. lwIP and the Wi-Fi driver are the parameter `lwip`.
pub mod Ring
pub mod Receive
pub mod Fifo
pub mod Calls
pub mod Wait
mod Tests
use Prim.Native.String.{String}
use ventilation_system_proje.Common.{
  ℕ, zero, suc, ◌+◌, ◌-◌, ◌*◌, ◌%◌, List, [], ◌∷◌, ◌++◌, Bool, true, false, not, ◌&&◌, ◌||◌, Option,
  some, none, ◌>>=◌, ◌==◌, ltb, leb, if◌then◌else◌, u16, u32, length, values, Option-cases,
}
use ventilation_system_proje.Common.Int.{ℤ, pos, negsuc}
use ventilation_system_proje.Common.Cells.{overwritten}

-- `copy_partial p n offset` is what `pbuf_copy_partial` copies of a buffer chain. The rest are the
-- calls in the order of the code; `remote_addr` and the control block are in the world.
pub record Lwip : Type 1 where
  pub World : Type 0
  pub Pbuf : Type 0
  pub Err : Type 0
  pub err_ok : Err
  pub err_arg : Err
  pub err_mem : Err
  pub err_abrt : Err
  pub is_ok : Err → Bool
  pub tot_len : Pbuf → ℕ
  pub copy_partial : Pbuf → ℕ → ℕ → List ℕ
  pub pbuf_free : Pbuf → World → World
  pub tcp_recved : ℕ → World → World
  pub arch_init : World → Bool × World
  pub wifi_connect : String → String → World → Bool × World
  pub ip4addr_aton : String → World → Bool × World
  pub tcp_new : World → Bool × World
  pub set_callbacks : World → World
  pub clear_callbacks : World → World
  pub tcp_connect : ℕ → World → Err × World
  pub tcp_write : List ℕ → World → Err × World
  pub tcp_output : World → Err × World
  pub tcp_close : World → Err × World
  pub tcp_abort : World → World

abbrev pub buf_size : ℕ
buf_size = 2048

-- The bytes of `buffer` are a function of the index. `has_pcb` says whether `tcp_pcb` is set.
pub record IpStack : Type 0 where
  pub buffer : ℕ → ℕ
  pub count : ℕ
  pub dropped : ℕ
  pub wr : ℕ
  pub rd : ℕ
  pub connected : Bool
  pub success : Bool
  pub has_pcb : Bool

-- Copying into the buffer, and out of it; past its end both are undefined in C, and `none` here.
unfoldable pub copy_in : ℕ → List ℕ → IpStack → Option IpStack
copy_in a bytes s =
    if leb (a + length bytes) buf_size
    then some (record s { buffer = overwritten s.buffer a bytes })
    else none

unfoldable pub copy_out : ℕ → ℕ → IpStack → Option (List ℕ)
copy_out a n s = if leb (a + n) buf_size then some (values s.buffer a n) else none

-- The two branches of `IPStack::read` behind its wait: a copy in two parts, and one in one.
unfoldable pub read_twice : ℕ → IpStack → Option (List ℕ × ℕ × IpStack)
unfolding copy_out
read_twice bytes_to_copy s =
    let first_copy = u16 (buf_size - s.rd) in
    let rest = bytes_to_copy - first_copy in
    do
      first ← copy_out s.rd first_copy s
      second ← copy_out 0 rest s
      some (
        first ++ second,
        rest + first_copy,
        record s { rd = u16 rest; count = s.count - first_copy - rest },
      )

unfoldable pub read_once : ℕ → IpStack → Option (List ℕ × ℕ × IpStack)
unfolding copy_out
read_once bytes_to_copy s = do
  bytes ← copy_out s.rd bytes_to_copy s
  some (
    bytes,
    bytes_to_copy,
    record s { rd = (s.rd + bytes_to_copy) % buf_size; count = s.count - bytes_to_copy },
  )

-- What is copied to the caller's buffer, and the number of bytes that is returned.
unfoldable pub read_ring : ℕ → IpStack → Option (List ℕ × ℕ × IpStack)
unfolding read_twice read_once
read_ring len s =
    let bytes_to_copy = if ltb s.count len then s.count else len in
    let rd_end = u16 (s.rd + bytes_to_copy) in
    if bytes_to_copy == 0
    then some ([], 0, s)
    else if ltb buf_size rd_end
    then read_twice bytes_to_copy s
    else read_once bytes_to_copy s

module _ (lwip : Lwip) where
  open lwip use {World, Pbuf, Err, is_ok}

  -- The first part of a copy in two parts, and how many bytes are left.
  unfoldable pub receive_first : Pbuf → ℕ → ℕ → IpStack → Option (IpStack × ℕ)
  unfolding copy_in
  receive_first p bytes_to_copy first_copy s =
      let first = lwip.copy_partial p first_copy 0 in
      if first_copy == 0 then some (s, bytes_to_copy) else (do
        s' ← copy_in s.wr first s
        some (
          record s' { wr = 0; count = u16 (s'.count + first_copy) },
          u16 (bytes_to_copy - length first),
        ))

  -- The copy at the write index, from `first_copy` on in the chain.
  unfoldable pub receive_rest : Pbuf → ℕ → ℕ → IpStack → Option IpStack
  unfolding copy_in
  receive_rest p bytes_to_copy first_copy s =
      let bytes = lwip.copy_partial p bytes_to_copy first_copy in
      do
        s' ← copy_in s.wr bytes s
        some (record s' {
          wr = u16 (s'.wr + length bytes) % buf_size;
          count = u16 (s'.count + bytes_to_copy);
        })

  -- The part of `tcp_client_recv` that receives the buffer chain.
  unfoldable pub receive : Pbuf → IpStack → Option IpStack
  unfolding receive_first receive_rest
  receive p s =
      let tot_len = lwip.tot_len p in
      let available = u16 (buf_size - s.count) in
      let bytes_to_copy = if ltb tot_len available then tot_len else available in
      let wr_end = u16 (s.wr + bytes_to_copy) in
      let s1 =
        if ltb bytes_to_copy tot_len
        then record s { dropped = u32 (s.dropped + (tot_len - bytes_to_copy)) }
        else s in
      let first_copy = u16 (buf_size - s1.wr) in
      if ltb buf_size wr_end
      then (do
        first ← receive_first p bytes_to_copy first_copy s1
        receive_rest p first.1 first_copy first.0)
      else receive_rest p bytes_to_copy 0 s1

  -- The callbacks of lwIP; `none` for the chain says that the connection has been closed.
  unfoldable pub tcp_client_recv : Option Pbuf → IpStack → World → Option (IpStack × World)
  unfolding receive
  tcp_client_recv none s w = some (s, w)
  tcp_client_recv (some p) s w =
      if ltb 0 (lwip.tot_len p)
      then (do s' ← receive p s; some (s', lwip.pbuf_free p (lwip.tcp_recved (lwip.tot_len p) w)))
      else some (s, lwip.pbuf_free p w)

  abbrev pub tcp_client_connected : Err → IpStack → IpStack
  tcp_client_connected err s = record s { connected = true }
