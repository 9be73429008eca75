-- ===== src/Control/Tests.antt =====
-- Rounds of the control loop on a board that notes the speeds that are sent.
use ventilation_system_proje.Common.{ℕ, ◌≡◌, refl, true, false, none, some, List, [], ◌∷◌, arith}
use ventilation_system_proje.Common.Int.{pos}
use ventilation_system_proje.Input.{handler}
use ventilation_system_proje.Fan.{pressure_distance, set_speed, adjust_speed}
use ventilation_system_proje.Display.Menus.{main_menu}
use ventilation_system_proje.Control.{Board, Round, Loop}
use ventilation_system_proje.Control.Body.{
  page_part, manual_part, adjust_now, automatic_part, send_part, yield_part, round, rounds,
}
use ventilation_system_proje.Control.Bounds.{IsBounded, rounds-IsBounded}
use ventilation_system_proje.Control.Counting.{counting}
use ventilation_system_proje.Control.Timing.{IsApart, adjust_times, message_times, rounds-IsApart}
use ventilation_system_proje.Control.Message.{TakesOver, message_lem}

abbrev bench : Board
bench = record {
  hw = record {
    World = List ℕ;
    get_pressure = λ w. (pos 20, w);
    read_counter = λ w. (0, w);
    send_speed = λ speed w. speed ∷ w;
    now_ms = λ w. 6000;
  };
  F = ℕ;
  temp = λ w. 21;
  co = λ w. 400;
  rh = λ w. 35;
  absh = λ w. 7;
  to_int = pos;
  transfers = λ w. w;
}

abbrev at_start : Loop bench
at_start = record {
  world = [];
  fan = record { speed = pos 0; pressure = pos 0; counter = 0; error_time_ms = 0; error = false };
  settings = record { manual = false; setpoint = pos 50 };
  inputs = record {
    pass = record { data_value = pos 0; button_pin = 0; button_pressed = false };
    last_state = 0;
  };
  display_mode = 1;
  adjust_time = 0;
  send_time = 0;
  old_set_point = pos 50;
  speed_val = pos 0;
  pres_val = pos 0;
  prevval = pos 0;
}

at_start-IsBounded : IsBounded bench at_start
at_start-IsBounded = record {
  percent = (0, refl, omega arith);
  target = (0, refl, omega arith);
  speed = (0, refl, omega arith);
}

-- A turn of the encoder and a message in one round, and what comes behind.
abbrev with_message : Round
with_message = record {
  before_page = [];
  before_first = (10, 1, 0) ∷ [];
  before_second = [];
  before_third = [];
  adjust_at = 5001;
  send_at = 5002;
  message = some (pos 130, pos 0);
}

abbrev behind : Round
behind = record {
  before_page = [];
  before_first = [];
  before_second = [];
  before_third = [];
  adjust_at = 6000;
  send_at = 6001;
  message = none;
}

rounds-IsBounded_example : IsBounded bench (rounds bench true (with_message ∷ behind ∷ []) at_start)
rounds-IsBounded_example =
    rounds-IsBounded bench true (with_message ∷ behind ∷ []) at_start at_start-IsBounded

abbrev counted : Loop (counting bench)
counted = record {
  world = (0, at_start.world);
  fan = at_start.fan;
  settings = at_start.settings;
  inputs = at_start.inputs;
  display_mode = 1;
  adjust_time = 0;
  send_time = 0;
  old_set_point = pos 50;
  speed_val = pos 0;
  pres_val = pos 0;
  prevval = pos 0;
}

rounds-IsApart_example :
    IsApart 5000 0 (adjust_times bench true (with_message ∷ behind ∷ []) counted)
    × IsApart 5000 0 (message_times (counting bench) (with_message ∷ behind ∷ []) counted)
rounds-IsApart_example = rounds-IsApart bench (with_message ∷ behind ∷ []) counted

-- The first round calls `adjust_speed` once; the message takes the second to the manual mode.
adjusted_once : adjust_times bench true (with_message ∷ behind ∷ []) counted ≡ 5001 ∷ []
unfolding round page_part main_menu manual_part set_speed automatic_part adjust_now adjust_speed
    pressure_distance send_part yield_part handler
adjusted_once = refl

message_lem_example :
    TakesOver bench
      (pos 130)
      true
      (round bench true behind (round bench true with_message at_start).0).0
unfolding round page_part main_menu automatic_part adjust_now adjust_speed send_part yield_part
message_lem_example =
    message_lem bench with_message behind at_start (pos 130) (pos 0) refl (unfold handler in refl)
      (refl)

-- 130 percent is limited to 100, and the fan gets its full speed.
full_speed : (rounds bench true (with_message ∷ behind ∷ []) at_start).fan.speed ≡ pos 1000
unfolding rounds round page_part main_menu manual_part set_speed automatic_part adjust_now
    adjust_speed send_part yield_part handler
full_speed = refl
