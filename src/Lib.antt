-- ===== src/Lib.antt =====
-- The firmware of the ventilation controller: a Raspberry Pi Pico that keeps the pressure of a duct
-- with a MODBUS fan, reads MODBUS and I2C sensors, shows its state on a display, keeps logs and
-- credentials in an I2C EEPROM, and talks to an MQTT broker over Wi-Fi. The paths below are those
-- of the repository; most of the code is under src/.
--
-- The parts, and the modules that model them:
--
-- - Crc: the two checksums. Crc.Modbus is the table and `crc` of src/modbus_handler/modbus_crc.h,
--   Crc.Ccitt is `crc16` of src/logHandler.cpp. Crc.Shift and Crc.Fold hold what both share: a shift
--   register over 16-bit words that respects exclusive or, and a checksum as a fold of its rounds.
-- - Modbus: src/modbus_handler/modbus_register.h and modbus_register.cpp. Modbus.Frames is about
--   the requests that are sent, Modbus.Answers about the answers that are read. Modbus.Bus is the
--   controller of src/modbus_handler/modbus_controller.cpp as a state machine whose events are the
--   parts of `start`, the bytes, the interrupts and the time that passes.
-- - Eeprom: src/eeprom.c. The I2C and time calls of the Pico SDK are the record `Sdk`; the record
--   `Chip` of Eeprom.Chip states what is documented of the chip, a clock and a write cycle among it,
--   and Eeprom.Model is a device for which all of it holds. Eeprom.Storage is the interface that the
--   driver fills and that the log handler uses.
-- - Log: src/logHandler.h and src/logHandler.cpp. Log.Handler has the operations on the two logs,
--   Log.Slots, Log.Push and Log.Frame their loops and arrays, Log.Invariant and its children the
--   invariant of handler and EEPROM, and Log.Credentials the stored credentials.
-- - Pressure: src/pressure_handler. Fan: src/fan_controller, over the record `FanHardware` for the
--   registers, the sensor and the clock; Fan.Speed is its arithmetic, Fan.Control its behaviour.
-- - IpStack: src/IPStack.h and src/IPStack.cpp, over the record `Lwip`. IpStack.Ring and
--   IpStack.Receive are about the callback that fills the ring buffer, IpStack.Fifo about the queue
--   that it is, IpStack.Calls and IpStack.Wait about the calls around it.
-- - CommHandler: src/commhandler.h and src/commhandler.cpp, over the record `Client` for the MQTT
--   client; CommHandler.Topics is about subscriptions, CommHandler.Settings the two settings and the
--   status message.
-- - Display: src/display. Display.MonoVlsb is the buffer of one bit per pixel, Display.Framebuf the
--   drawing on any class with pixel functions (the record `Virtual`), Display.Font the font, and
--   Display.Canvas puts the buffer under the drawing. Display.Ssd1306 is what the display is sent.
--   Display.Menus has the pages of graphics.cpp as lists of drawing calls; Display.Menus.TextInput and
--   the modules behind it are about the text that is typed.
-- - Input: the interrupt handler of src/input.cpp, with the levels of the encoder's two pins as
--   arguments. Input.Encoder is the encoder as a walk over the positions of its lines, Input.Pins the
--   pins of src/pin.cpp and the constructors.
-- - Countdown: src/Countdown.h and src/Countdown.cpp, over the record `Timer` for the times of the
--   SDK.
-- - Control: the control loop of main.cpp. Control.Body is one round, over the record `Board`; its
--   modules of theorems are about the ranges of the values, the times, and a message that arrives;
--   Control.Counting counts the calls of `adjust_speed` at the hardware.
-- - Setup: the start-up loop of main.cpp that lets the user type the credentials. Setup.Body is one
--   turn of it, with the interrupts between its reads of the buttons; Setup.Storing is about the text
--   that is stored, Setup.Swallowed and Setup.Seen about the buttons that are seen. Setup.Connect is the loop around
--   it, with the attempt to connect; the MQTT client is the record `Paho`, and the model of the IP
--   stack, of the communication handler and of the log handler are those of their modules.
--   Setup.Connect.Calls records the calls that an attempt makes.
-- - Common: the names that all share, numbers, words, lists and memory cells, and the laws of the
--   bitwise operations.
--
-- How they interact: the log handler writes and reads through the EEPROM driver and publishes
-- through the communication handler; the fan sends and reads MODBUS registers and asks the pressure
-- sensor; the MQTT client reads from and writes to the IP stack, whose ring buffer lwIP fills.
--
-- Numbers are natural numbers with the wrap-around of each width written out; signed numbers are
-- those of Common.Int. What C leaves undefined (a read or write outside an array, a pointer that is
-- not set) is `none`. Loops recurse on their count. Fuel is used in three places: a column of the
-- font is a byte, so eight rounds end its scan; the inner loop of a line moves at most once in a
-- round, and has fuel for two; a 32-bit number has at most ten decimal digits. The wait of
-- `IPStack::read` runs over the polls to come as a list.
--
-- A float of the fan's speed holds whole numbers and halves only, exact for distances below 2 ^ 20.
-- The clocks are numbers of microseconds or milliseconds since boot.
--
-- Not modelled: the constructors of the DMA channel and of the UART and I2C instances in src/pico_hw,
-- which only configure the hardware; debug output; the Paho MQTT library and rapidjson,
-- which are parameters; and the server and the website, which are not part of the firmware.
pub mod CommHandler
pub mod Common
pub mod Control
pub mod Countdown
pub mod Crc
pub mod Display
pub mod Eeprom
pub mod Fan
pub mod Input
pub mod IpStack
pub mod Log
pub mod Modbus
pub mod Pressure
pub mod Setup
