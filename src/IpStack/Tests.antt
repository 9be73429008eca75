-- ===== src/IpStack/Tests.antt =====
-- A stack over a simple lwIP, and the theorems at concrete chains.
use ventilation_system_proje.Common.{
  ℕ, ◌+◌, ◌≡◌, refl, List, [], ◌∷◌, ◌++◌, Bool, true, false, some, none, length, take, drop, min,
  arith,
}
use ventilation_system_proje.IpStack.{Lwip, IpStack, receive, read_ring}
use ventilation_system_proje.IpStack.Ring.{IsValid}
use ventilation_system_proje.IpStack.Receive.{Holds, Received, receive-Received}
use ventilation_system_proje.IpStack.Fifo.{
  contents, Taken, read_ring-Taken, start, reception, reading, Runs-fifo,
}
use ventilation_system_proje.IpStack.Calls.{Poll, read}
use ventilation_system_proje.IpStack.Wait.{now, Reads, read-Reads}

-- A chain is its bytes, all calls succeed, and the world counts the calls.
abbrev net : Lwip
net = record {
  World = ℕ;
  Pbuf = List ℕ;
  Err = Bool;
  err_ok = true;
  err_arg = false;
  err_mem = false;
  err_abrt = false;
  is_ok = λ e. e;
  tot_len = λ p. length p;
  copy_partial = λ p n from. take n (drop from p);
  pbuf_free = λ _ w. w + 1;
  tcp_recved = λ _ w. w + 1;
  arch_init = λ w. (false, w + 1);
  wifi_connect = λ _ _ w. (false, w + 1);
  ip4addr_aton = λ _ w. (true, w + 1);
  tcp_new = λ w. (true, w + 1);
  set_callbacks = λ w. w + 1;
  clear_callbacks = λ w. w + 1;
  tcp_connect = λ _ w. (true, w + 1);
  tcp_write = λ _ w. (true, w + 1);
  tcp_output = λ w. (true, w + 1);
  tcp_close = λ w. (true, w + 1);
  tcp_abort = λ w. w + 1;
}

-- Three bytes round the end of the buffer.
abbrev stack : IpStack
stack = record {
  buffer = λ i. i;
  count = 3;
  dropped = 0;
  wr = 1;
  rd = 2046;
  connected = true;
  success = true;
  has_pcb = true;
}

stack-IsValid : IsValid stack
stack-IsValid = record { fits = omega arith; rd_in = omega arith; wr_at = refl }

three-Holds : Holds net (7 ∷ 8 ∷ 9 ∷ []) (7 ∷ 8 ∷ 9 ∷ [])
three-Holds = record { size = refl; small = omega arith; copy = λ n from h. refl }

-- The stack after the three bytes, and after a read of four behind them.
abbrev filled : Received stack (7 ∷ 8 ∷ 9 ∷ []) (receive net (7 ∷ 8 ∷ 9 ∷ []) stack)
filled = receive-Received net three-Holds stack stack-IsValid

abbrev emptied : Taken 4 filled.stack (read_ring 4 filled.stack)
emptied = read_ring-Taken 4 filled.stack filled.valid

Runs-fifo_example :
    IsValid emptied.stack
    × ([] ++ emptied.bytes ++ contents emptied.stack ≡ contents stack ++ ([] ++ 7 ∷ 8 ∷ 9 ∷ []))
Runs-fifo_example =
    Runs-fifo net stack emptied.stack ([] ++ 7 ∷ 8 ∷ 9 ∷ []) ([] ++ emptied.bytes) stack-IsValid (
      reading ([] ++ 7 ∷ 8 ∷ 9 ∷ []) [] filled.stack emptied.stack 4 (min filled.stack.count 4)
        emptied.bytes
        (reception [] [] stack filled.stack (7 ∷ 8 ∷ 9 ∷ []) (7 ∷ 8 ∷ 9 ∷ []) start three-Holds
          filled.returns)
        emptied.returns)

abbrev poll : Poll net
poll = record { chains = some (7 ∷ 8 ∷ 9 ∷ []) ∷ none ∷ []; time_reached = true }

read-Reads_example : Reads net 5 (read net (poll ∷ []) 5 stack 0)
read-Reads_example =
    read-Reads net (poll ∷ []) 5 stack 0 (now poll [] (((7 ∷ 8 ∷ 9 ∷ []), three-Holds), tt) refl)
      stack-IsValid
